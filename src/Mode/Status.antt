-- ===== src/Mode/Status.antt =====
-- The `int` that the operations of a mode return: include/drew/plugin.h.
use drew.Prelude.{ℕ}

-- 0, a negated error code, or an error code whose sign was forgotten.
pub data Status : Type 0 where
  ok : Status
  failure : ℕ → Status
  unsigned : ℕ → Status

abbrev pub err_not_allowed : ℕ
err_not_allowed = 0x10004

abbrev pub err_not_impl : ℕ
err_not_impl = 0x10005

abbrev pub err_invalid : ℕ
err_invalid = 0x10006

-- `ENOMEM` of the platform's errno.h.
abbrev pub err_no_memory : ℕ
err_no_memory = 12

abbrev pub err_more_info : ℕ
err_more_info = 0x10007
