-- ===== src/SockSpray/Bind.antt =====
-- lne/SockSpray.cpp: what becomes of a connection that `HandleBind` refuses.
use lne.Prelude.{ℕ, ◌≡◌, refl, Bool, false, ◌&&◌, none}
use lne.Ring.{Ptr}
use lne.SockSpray.{SockSpray, handle_bind, handle_terminate, clean}

-- When `fcntl` or `epoll_ctl` fails, `HandleBind` has cleaned the connection, its handler included,
-- and the `HandleTerminate` by which `SockReactor::Bind` then answers calls through a null handler.
pub handle_bind-handle_terminate :
    (fuel : ℕ) (fcntl_ok epoll_ok : Bool) (binder : Ptr) (s : SockSpray)
    → fcntl_ok && epoll_ok ≡ false
    → let out = handle_bind fuel fcntl_ok epoll_ok binder s in
      (out.1 ≡ false) × (handle_terminate out.0 ≡ none)
unfolding handle_bind handle_terminate clean
handle_bind-handle_terminate fuel fcntl_ok epoll_ok binder s e = rw e (refl, refl)
