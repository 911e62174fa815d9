-- ===== src/Pproxy.antt =====
-- apps/pproxy/PPSpringHandler.cpp, apps/pproxy/PPSprayHandler.cpp and the arguments of
-- apps/pproxy/main.cpp: a proxy that joins each client to a connection of its own. The objects are
-- their references and contexts, by address; `Call`s are what is done to them otherwise.
pub mod Pair
pub mod Joined
pub mod Arguments
pub mod Main
use lne.Prelude.{
  ℕ, ◌+◌, ◌%◌, ◌==◌, ◌&&◌, Bool, true, false, not, List, [], ◌∷◌, ◌++◌, if◌then◌else◌, update,
}
use lne.Ring.{Ptr, null}
use lne.ExtendObject.{RefObject, u32_mod, add_ref, release}

pub record Objects : Type 0 where
  pub ref : Ptr → RefObject
  pub context : Ptr → Ptr

-- `Bind` and `Shutdown` of a connection, `Send` to one, and an object that its last `Release`
-- destroys.
pub data Call : Type 0 where
  binds shuts sends destroys : Ptr → Call

unfoldable pub set_context : Ptr → Ptr → Objects → Objects
set_context client pair o = record o { context = update o.context client pair }

unfoldable pub hold : Ptr → Objects → Objects
hold p o = record o { ref = update o.ref p (add_ref (o.ref p)) }

unfoldable pub drop_ref : Ptr → Objects → Objects × List Call
drop_ref p o =
    let rel = release (o.ref p) in
    (record o { ref = update o.ref p rel.0 }, if rel.1 then destroys p ∷ [] else [])

unfoldable pub drop_held : Ptr → Objects → Objects × List Call
unfolding drop_ref
drop_held p o = if p == null then (o, []) else drop_ref p o

-- `PPSpringHandler::HandleClient`. `connected` is whether `Connect` answers `LNERR_OK`, `client` and
-- `child` are what the two `Alloc` answer, zero for none.
unfoldable pub handle_client :
    (connected : Bool) (client child : Ptr) → ℕ → Objects → Objects × ℕ × List Call
unfolding set_context hold drop_held
handle_client connected client child count o =
    let joined = hold child (hold client (set_context child client (set_context client child o))) in
    let first = drop_held client o in
    let second = drop_held child first.0 in
    if connected
    then (if not (client == null) && not (child == null)
        then (joined, (count + 1) % u32_mod, binds client ∷ binds child ∷ [])
        else (second.0, count, first.1 ++ second.1))
    else (o, count, [])

-- `PPSprayHandler::HandleData`: the block goes to what the context points to, which is not tested.
unfoldable pub handle_data : Ptr → Objects → List Call
handle_data client o = sends (o.context client) ∷ []

-- `PPSprayHandler::HandleShutdown`.
unfoldable pub handle_shutdown : Ptr → Objects → Objects × List Call
unfolding set_context drop_ref
handle_shutdown client o =
    let pair = o.context client in
    let out = drop_ref pair (set_context client null o) in
    if pair == null then (o, []) else (out.0, shuts pair ∷ out.1)

-- `PPSprayHandler::HandleTerminate`.
unfoldable pub handle_terminate : Ptr → Objects → Objects × List Call
unfolding set_context drop_ref
handle_terminate client o =
    let pair = o.context client in
    if pair == null then (o, []) else drop_ref pair (set_context client null o)
