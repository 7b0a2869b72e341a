-- ===== src/Camera/Dictionary.antt =====
-- A small metadata library that keeps the values of its tags, to show that what is assumed of the
-- real one can hold. A value is the address that it was taken from, and the index of an entry is its
-- tag.
use android_device_xiaomi_la.Common.{
  ℕ, suc, ◌+◌, ◌*◌, ◌≡◌, refl, Bool, not, ◌&&◌, List, [], ◌∷◌, ◌++◌, Option, none, some, is_some,
  length, length-append, arith, leb, ◌==◌, if◌then◌else◌, Status, ok, no_memory, bad_value,
  name_not_found,
}
use android_device_xiaomi_la.Camera.Library.{MetadataLib, IsAllocator, IsMeasured, int32}
use android_device_xiaomi_la.Camera.Maps.{IsMap, IsSpacious, IsLocal, IsShown}

pub record Block : Type 0 where
  pub entries : List (ℕ × ℕ)
  pub entry_cap : ℕ
  pub octets : ℕ
  pub octet_cap : ℕ

pub record Heap : Type 0 where
  pub last : ℕ
  pub at : ℕ → Option Block

abbrev pub nothing : Block
nothing = record { entries = []; entry_cap = 0; octets = 0; octet_cap = 0 }

abbrev pub live : Heap → ℕ → Bool
live s q = leb q s.last && (not (q == 0) && is_some (s.at q))

abbrev pub or_nothing : Option Block → Block
or_nothing none = nothing
or_nothing (some b) = b

abbrev pub block_at : Heap → ℕ → Block
block_at s p = if live s p then or_nothing (s.at p) else nothing

abbrev pub put : Heap → ℕ → Block → Heap
put s p b = record s { at = λ q. if q == p then some b else s.at q }

abbrev pub create : Block → Heap → ℕ × Heap
create b s = (
  suc s.last,
  record s { last = suc s.last; at = λ q. if q == suc s.last then some b else s.at q },
)

abbrev pub lookup : ℕ → List (ℕ × ℕ) → Option ℕ
lookup t [] = none
lookup t ((k, v) ∷ l) = if t == k then some v else lookup t l

abbrev pub or_zero : Option ℕ → ℕ
or_zero none = 0
or_zero (some v) = v

abbrev pub remove : ℕ → List (ℕ × ℕ) → List (ℕ × ℕ)
remove t [] = []
remove t ((k, v) ∷ l) = if t == k then remove t l else (k, v) ∷ remove t l

pub lookup-remove :
    (t' t : ℕ) (l : List (ℕ × ℕ)) → lookup t' (remove t l) ≡ (if t' == t then none else lookup t' l)
lookup-remove t' t [] = ground arith
lookup-remove t' t ((k, v) ∷ l) = ground (arith, lookup-remove t' t l)

pub length_zero : (l : List (ℕ × ℕ)) → length l ≡ 0 → l ≡ []
length_zero [] h = refl
length_zero (x ∷ l) h = ground arith

abbrev pub fits : Block → Block → Bool
fits b c =
    leb (length b.entries + length c.entries) b.entry_cap && leb (b.octets + c.octets) b.octet_cap

-- Changing the entries of a block.
abbrev pub edit : ℕ → List (ℕ × ℕ) → Heap → Status × Heap
edit p l s =
    if live s p then (ok, put s p (record (block_at s p) { entries = l })) else (bad_value, s)

abbrev pub dictionary : MetadataLib
dictionary = record {
  Store = Heap;
  allocate = λ e d s. create (record { entries = []; entry_cap = e; octets = 0; octet_cap = d }) s;
  clone = λ p s. if p == 0 then (0, s) else create (block_at s p) s;
  free = λ p s. record s { at = λ q. if q == p then none else s.at q };
  entry_count = λ s p. length (block_at s p).entries;
  entry_capacity = λ s p. (block_at s p).entry_cap;
  data_count = λ s p. (block_at s p).octets;
  data_capacity = λ s p. (block_at s p).octet_cap;
  size = λ s p. (block_at s p).octets;
  append = λ p r s.
      if fits (block_at s p) (block_at s r)
      then (
        ok,
        if live s p
            then put s p (record (block_at s p) {
              entries = (block_at s p).entries ++ (block_at s r).entries;
              octets = (block_at s p).octets + (block_at s r).octets;
            })
            else s,
      )
      else (no_memory, s);
  sort = λ p s. (ok, s);
  tag_type = λ t. some int32;
  entry_data_size = λ t n. 4 * n;
  find_entry = λ s p t e.
      if is_some (lookup t (block_at s p).entries)
      then (ok, record { index = t; count = 1; bytes = or_zero (lookup t (block_at s p).entries) })
      else (name_not_found, record e { index = t });
  add_entry = λ p t a n s. edit p ((t, a) ∷ (block_at s p).entries) s;
  update_entry = λ p i a n s. edit p ((i, a) ∷ (block_at s p).entries) s;
  delete_entry = λ p i s. edit p (remove i (block_at s p).entries) s;
}

abbrev pub allocator : IsAllocator dictionary
allocator = record {
  live = live;
  live_null = λ s. ground arith;
  allocate_fresh = λ e d s. ground arith;
  live-allocate = λ e d s q. ground arith;
  clone_fresh = λ p s. ground arith;
  live-clone = λ p s q. ground arith;
  live-free = λ p s q. ground arith;
  live-append = λ p r s q. ground arith;
  live-sort = λ p s q. refl;
  live-add_entry = λ p t a n s q. ground arith;
  live-update_entry = λ p i a n s q. ground arith;
  live-delete_entry = λ p i s q. ground arith;
}

abbrev pub measured : IsMeasured dictionary
measured = record {
  room-allocate = λ e d s h. ground arith;
  room-allocate_ne = λ e d s q h. ground arith;
  append_fits =
      λ p r s h f. ground (arith, length-append (block_at s p).entries (block_at s r).entries);
  room-free = λ p s q h. ground arith;
}

abbrev pub maps : IsMap dictionary
maps = record {
  Value = ℕ;
  value = λ s p t. lookup t (block_at s p).entries;
  datum = λ s a n. a;
  Held = λ a n. Unit {0};
  value_null = λ s t. ground arith;
  find_ok = λ s p t e. ground arith;
  find_missing = λ s p t e h. ground arith;
  value-add_entry = λ p t a n s t' h good. ground arith;
  value-update_entry = λ p t a n e s t' h good. ground arith;
  value-delete_entry =
      λ p t e s t' h good. ground (arith, lookup-remove t' t (block_at s p).entries);
  value-allocate = λ c d s t h. ground arith;
  value-allocate_ne = λ c d s q t h. ground arith;
  value-free = λ p s q t h. ground arith;
  value-append = λ p r s t h e good.
      ground (arith, length_zero (block_at s p).entries, length_zero (block_at s r).entries);
  datum-allocate = λ c d s a n h. refl;
  datum-append = λ p r s a n h. refl;
  datum-free = λ p s a n h. refl;
  datum-add_entry = λ p t b k s a n h. refl;
  datum-update_entry = λ p i b k s a n h. refl;
  datum-delete_entry = λ p i s a n h. refl;
}

abbrev pub spacious : IsSpacious dictionary allocator maps
spacious = record {
  add_fits = λ p t a n k s own kind held absent h g. ground arith;
  update_fits = λ p t a n k e s own kind held there g. ground arith;
}

abbrev pub local : IsLocal dictionary maps
local = record {
  value-clone = λ p s t h. ground arith;
  value-clone_ne = λ p s q t h. ground arith;
  clone_null = λ s. refl;
  datum-clone = λ p s a n h. refl;
  value-append_ne = λ p r s q t h. ground arith;
  value-sort_ne = λ p s q t h. refl;
  value-add_entry_ne = λ p k a n s q t h. ground arith;
  value-update_entry_ne = λ p i a n s q t h. ground arith;
  value-delete_entry_ne = λ p i s q t h. ground arith;
}

abbrev pub shown : IsShown dictionary maps
shown = record { datum-find_entry = λ s p t e h. ground arith }
