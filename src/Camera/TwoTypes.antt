-- ===== src/Camera/TwoTypes.antt =====
-- The library of Dictionary with tags of two types: the tags below 100 are of TYPE_BYTE, the others
-- of TYPE_INT32, and integers stand at the addresses from 1000 on.
use android_device_xiaomi_la.Common.{
  ℕ, ◌≡◌, List, [], ◌∷◌, ◌++◌, some, is_some, arith, ltb, if◌then◌else◌,
}
use android_device_xiaomi_la.Camera.Library.{MetadataLib, TagType, byte, int32}
use android_device_xiaomi_la.Camera.Typed.{IsTyped}
use android_device_xiaomi_la.Camera.Dictionary.{Heap, block_at, lookup, lookup-remove, dictionary}

abbrev pub type_of : ℕ → TagType
type_of t = if ltb t 100 then byte else int32

abbrev pub type_at : ℕ → TagType
type_at a = if ltb a 1000 then byte else int32

abbrev pub two_types : MetadataLib
two_types = record dictionary { tag_type = λ t. some (type_of t) }

abbrev pub WellTyped : Heap → Type 0
WellTyped s = (p t v : ℕ) → lookup t (block_at s p).entries ≡ some v → type_of t ≡ type_at v

pub lookup-append :
    (t : ℕ) (l k : List (ℕ × ℕ))
    → lookup t (l ++ k) ≡ (if is_some (lookup t l) then lookup t l else lookup t k)
lookup-append t [] k = ground arith
lookup-append t ((u, v) ∷ l) k = ground (arith, lookup-append t l k)

abbrev pub types : IsTyped two_types
types = record {
  Typed = WellTyped;
  OfType = λ k a n. type_at a ≡ k;
  Typed-allocate = λ e d s typed q t v h. ground (arith, typed q t v);
  Typed-clone = λ p s typed q t v h. ground (arith, typed q t v, typed p t v);
  Typed-free = λ p s typed q t v h. ground (arith, typed q t v);
  Typed-append = λ p r s typed q t v h. ground (
    arith,
    lookup-append t (block_at s p).entries (block_at s r).entries,
    typed q t v,
    typed p t v,
    typed r t v,
  );
  Typed-sort = λ p s typed. typed;
  Typed-delete_entry = λ p i s typed q t v h.
      ground (arith, lookup-remove t i (block_at s p).entries, typed q t v, typed p t v);
  Typed-add_entry = λ p t a n k s typed kind held q u v h. ground (arith, typed q u v, typed p u v);
  Typed-update_entry =
      λ p t a n k e s typed kind held good q u v h. ground (arith, typed q u v, typed p u v);
}
