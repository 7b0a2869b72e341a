-- ===== src/Common/Bytes.antt =====
-- Texts as lists of bytes, and what the sources use of string.h and ctype.h on them. A text ends
-- before its NUL.
use Prim.Native.Char.{code}
use Prim.Native.String.{String}
use Prim.Native.Nat.{ℕ}
use mathlib.Core.Path.{◌≡◌, refl}
use mathlib.Core.Bool.{Bool, true, false, ◌&&◌, ◌||◌}
use mathlib.Core.List.{List, [], ◌∷◌}
use native.Mathlib.Omega.{arith}
use android_device_xiaomi_la.Common.Tests.{leb, ◌==◌}

abbrev pub Text : Type 0
Text = List ℕ

-- The code points of a literal: its bytes, as it is ASCII.
abbrev pub text : String → Text
text String.[] = []
text (String.◌∷◌ c s) = code c ∷ text s

-- strcmp(s, t) == 0
abbrev pub equal : Text → Text → Bool
equal [] [] = true
equal (a ∷ s) (b ∷ t) = a == b && equal s t
equal _ _ = false

abbrev pub starts_with : Text → Text → Bool
starts_with s [] = true
starts_with [] (b ∷ t) = false
starts_with (a ∷ s) (b ∷ t) = a == b && starts_with s t

-- strstr(s, t) != NULL
abbrev pub contains : Text → Text → Bool
contains [] t = starts_with [] t
contains (a ∷ s) t = starts_with (a ∷ s) t || contains s t

-- isdigit
abbrev pub is_digit : ℕ → Bool
is_digit c = leb b'0' c && leb c b'9'

pub equal_refl : (s : Text) → equal s s ≡ true
equal_refl [] = refl
equal_refl (a ∷ s) = ground (arith, equal_refl s)

pub equal_eq : (s t : Text) → equal s t ≡ true → s ≡ t
equal_eq [] [] e = refl
equal_eq [] (b ∷ t) e = ground arith
equal_eq (a ∷ s) [] e = ground arith
equal_eq (a ∷ s) (b ∷ t) e = ground (arith, equal_eq s t)
