-- ===== src/Common/Errors.antt =====
-- `status_t` of utils/Errors.h. The values are constants of that header, so that they are told
-- apart by name here; BAD_VALUE is -EINVAL and NO_ERROR is OK. `failed` is any other code.
use Prim.Native.Nat.{ℕ}
use mathlib.Core.Path.{◌≡◌, refl}
use mathlib.Core.Bool.{Bool, true, false}
use native.Mathlib.Omega.{arith}

pub data Status : Type 0 where
  ok no_memory bad_value invalid_operation name_not_found bad_type : Status
  failed : ℕ → Status

-- `res == OK`
abbrev pub is_ok : Status → Bool
is_ok ok = true
is_ok _ = false

-- `res == NAME_NOT_FOUND`
abbrev pub is_missing : Status → Bool
is_missing name_not_found = true
is_missing _ = false

pub is_ok_eq : (r : Status) → is_ok r ≡ true → r ≡ ok
is_ok_eq ok h = refl
is_ok_eq _ h = ground arith
