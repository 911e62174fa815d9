-- ===== src/Config.antt =====
-- The result codes of lne/config.h.
use lne.Prelude.{ℕ, ◌≡◌, ◌↔◌, Bool, true, false, arith, ltb}

-- A `LNE_UINT` that a function returns as its status.
pub data Status : Type 0 where
  lnerr_ok lnerr_unknow lnerr_parameter lnerr_noinit lnerr_timeout : Status
  lnerr_reentry lnerr_nomemory lnerr_nosupport lnerr_ioclosed lnerr_nodata : Status

-- The number behind each name.
unfoldable pub code : Status → ℕ
code lnerr_ok = 0x00000000
code lnerr_unknow = 0x80000001
code lnerr_parameter = 0x80000002
code lnerr_noinit = 0x80000003
code lnerr_timeout = 0x80000004
code lnerr_reentry = 0x80000005
code lnerr_nomemory = 0x80000006
code lnerr_nosupport = 0x80000007
code lnerr_ioclosed = 0x80000008
code lnerr_nodata = 0x80000009

-- The comparison with `LNERR_OK`.
abbrev pub is_ok : Status → Bool
is_ok lnerr_ok = true
is_ok _ = false

abbrev pub lne_successed : ℕ → Bool
lne_successed f = ltb f 0x80000000

abbrev pub lne_failed : ℕ → Bool
lne_failed f = ltb 0x80000000 f

-- Of every status exactly one of the two macros holds, and `LNERR_OK` is the only success.
pub successed_iff_ok :
    (s : Status)
    → ((lne_successed (code s) ≡ true) ↔ (s ≡ lnerr_ok))
      × ((lne_failed (code s) ≡ true) ↔ (lne_successed (code s) ≡ false))
unfolding code
successed_iff_ok lnerr_ok = ground arith
successed_iff_ok _ = ground arith
