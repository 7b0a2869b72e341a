-- ===== src/Pstore/Stripping.antt =====
-- getbasefilename against a description that splits a name at its last '-'.
use android_device_xiaomi_la.Common.{
  ℕ, zero, suc, ◌+◌, ◌<◌, ◌≤◌, ◌≡◌, refl, [], ◌∷◌, ◌++◌, Option, none, some, Option-cases, inl, inr,
  length, get_or, take, take-append, ◌==◌, if◌then◌else◌, Text, is_digit, arith,
}
use android_device_xiaomi_la.Pstore.Names.{scan, getbasefilename}

abbrev extend : ℕ → Text → Option (Text × Text) → Option (Text × Text)
extend c rest (some (a, b)) = some (c ∷ a, b)
extend c rest none = if c == b'-' then some ([], rest) else none

-- The parts before and after the last '-'.
unfoldable pub split : Text → Option (Text × Text)
split [] = none
split (c ∷ rest) = extend c rest (split rest)

abbrev stripped : Text → Option (Text × Text) → Text
stripped name (some (c ∷ a, d ∷ b)) = if is_digit d then c ∷ a else name
stripped name _ = name

-- The name without its last '-' and what follows, if a digit follows directly and something stands
-- before.
unfoldable pub base_of : Text → Text
unfolding split
base_of name = stripped name (split name)

split_sound : (s a b : Text) → split s ≡ some (a, b) → s ≡ a ++ (b'-' ∷ b)
unfolding split
split_sound [] a b e = ground arith
split_sound (c ∷ s) a b e = elim (Option-cases (split s)) [
  | inl n ↦ ground (arith)
  | inr ((a', b'), n) ↦ ground (arith, split_sound s a' b' n)
]

scan-split :
    (i last room : ℕ) (s : Text)
    → length s ≤ room
    → scan i last room s
      ≡ (elim (split s) [ none ↦ last | some (a, b) ↦ i + length a ], i + length s)
unfolding scan split
scan-split i last zero [] h = ground arith
scan-split i last zero (c ∷ s) h = ground arith
scan-split i last (suc room) [] h = ground arith
scan-split i last (suc room) (c ∷ s) h = elim (Option-cases (split s)) [
  | inl n ↦ ground (arith, n, scan-split (i + 1) (if c == b'-' then i else last) room s)
  | inr ((a', b'), n) ↦ ground (arith, n, scan-split (i + 1) (if c == b'-' then i else last) room s)
]

take_all : (s : Text) → take (length s) s ≡ s
take_all [] = refl
take_all (c ∷ s) = ground (arith, take_all s)

-- The character after the '-' of a name that is split there, 0 at its end.
get_or_after : (a b : Text) → get_or (a ++ (b'-' ∷ b)) (length a + 1) 0 ≡ get_or b 0 0
get_or_after [] b = ground arith
get_or_after (c ∷ a) b = ground (arith, get_or_after a b)

-- For a name that fits in the buffer, getbasefilename gives the name without its last '-' and what
-- follows, if a digit follows directly and something stands before it, and else the whole name; and
-- it returns the length of what it gives.
pub getbasefilename-base_of :
    (name : Text) (maxlen : ℕ)
    → length name < maxlen
    → getbasefilename name maxlen ≡ (length (base_of name), base_of name)
unfolding getbasefilename base_of
getbasefilename-base_of name maxlen h =
    let found = scan-split 0 0 maxlen name (omega arith) in
    elim (Option-cases (split name)) [
      | inl n ↦ ground (arith, n, found, take_all name)
      | inr (([], b), n) ↦ ground (arith, n, found, take_all name)
      | inr ((c ∷ a, []), n) ↦
          let s = split_sound name (c ∷ a) [] n in
          ground (arith, n, found, take_all name, s, get_or_after (c ∷ a) [])
      | inr ((c ∷ a, d ∷ b), n) ↦
          let s = split_sound name (c ∷ a) (d ∷ b) n in
          ground (
            arith,
            n,
            found,
            take_all name,
            s,
            get_or_after (c ∷ a) (d ∷ b),
            take-append (c ∷ a) (b'-' ∷ d ∷ b),
          )
    ]
