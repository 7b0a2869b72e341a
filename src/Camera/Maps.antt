-- ===== src/Camera/Maps.antt =====
-- What is relied on of the entries of a block, which libcamera_metadata finds, adds, updates and
-- deletes by tag.
use android_device_xiaomi_la.Common.{
  ℕ, ◌+◌, ◌≤◌, ◌≡◌, ◌≢◌, true, not, Option, none, some, is_some, ◌==◌, if◌then◌else◌, ok, is_ok,
  is_missing,
}
use android_device_xiaomi_la.Camera.Library.{MetadataLib, IsAllocator, TagType, Entry}

-- The entries of a block by tag, and how each call of the library changes them. The values that are
-- handed in stand in memory of the caller's own, which no block overlaps.
pub record IsMap (lib : MetadataLib) : Type 1 where
  pub Value : Type 0
  pub value : lib.Store → ℕ → ℕ → Option Value
  -- the elements at an address, so many of them
  pub datum : lib.Store → ℕ → ℕ → Value
  pub Held : ℕ → ℕ → Type 0
  pub value_null : (s : lib.Store) (t : ℕ) → value s 0 t ≡ none
  pub find_ok :
      (s : lib.Store) (p t : ℕ) (e : Entry)
      → is_ok (lib.find_entry s p t e).0 ≡ is_some (value s p t)
  pub find_missing :
      (s : lib.Store) (p t : ℕ) (e : Entry)
      → p ≢ 0
      → is_missing (lib.find_entry s p t e).0 ≡ not (is_some (value s p t))
  pub value-add_entry :
      (p t a n : ℕ) (s : lib.Store) (t' : ℕ)
      → value s p t ≡ none
      → (lib.add_entry p t a n s).0 ≡ ok
      → value (lib.add_entry p t a n s).1 p t'
        ≡ (if t' == t then some (datum s a n) else value s p t')
  pub value-update_entry :
      (p t a n : ℕ) (e : Entry) (s : lib.Store) (t' : ℕ)
      → is_some (value s p t) ≡ true
      → (lib.update_entry p (lib.find_entry s p t e).1.index a n s).0 ≡ ok
      → value (lib.update_entry p (lib.find_entry s p t e).1.index a n s).1 p t'
        ≡ (if t' == t then some (datum s a n) else value s p t')
  pub value-delete_entry :
      (p t : ℕ) (e : Entry) (s : lib.Store) (t' : ℕ)
      → is_some (value s p t) ≡ true
      → (lib.delete_entry p (lib.find_entry s p t e).1.index s).0 ≡ ok
      → value (lib.delete_entry p (lib.find_entry s p t e).1.index s).1 p t'
        ≡ (if t' == t then none else value s p t')
  pub value-allocate :
      (c d : ℕ) (s : lib.Store) (t : ℕ)
      → (lib.allocate c d s).0 ≢ 0
      → value (lib.allocate c d s).1 (lib.allocate c d s).0 t ≡ none
  pub value-allocate_ne :
      (c d : ℕ) (s : lib.Store) (q t : ℕ)
      → q ≢ (lib.allocate c d s).0
      → value (lib.allocate c d s).1 q t ≡ value s q t
  pub value-free :
      (p : ℕ) (s : lib.Store) (q t : ℕ) → q ≢ p → value (lib.free p s) q t ≡ value s q t
  -- append to an empty block
  pub value-append :
      (p r : ℕ) (s : lib.Store) (t : ℕ)
      → p ≢ r
      → lib.entry_count s p ≡ 0
      → (lib.append p r s).0 ≡ ok
      → value (lib.append p r s).1 p t ≡ value s r t
  pub datum-allocate :
      (c d : ℕ) (s : lib.Store) (a n : ℕ)
      → Held a n
      → datum (lib.allocate c d s).1 a n ≡ datum s a n
  pub datum-append :
      (p r : ℕ) (s : lib.Store) (a n : ℕ) → Held a n → datum (lib.append p r s).1 a n ≡ datum s a n
  pub datum-free :
      (p : ℕ) (s : lib.Store) (a n : ℕ) → Held a n → datum (lib.free p s) a n ≡ datum s a n
  pub datum-add_entry :
      (p t b k : ℕ) (s : lib.Store) (a n : ℕ)
      → Held a n
      → datum (lib.add_entry p t b k s).1 a n ≡ datum s a n
  pub datum-update_entry :
      (p i b k : ℕ) (s : lib.Store) (a n : ℕ)
      → Held a n
      → datum (lib.update_entry p i b k s).1 a n ≡ datum s a n
  pub datum-delete_entry :
      (p i : ℕ) (s : lib.Store) (a n : ℕ)
      → Held a n
      → datum (lib.delete_entry p i s).1 a n ≡ datum s a n

-- An entry of the type of its tag can be added to a block that has space for one more entry and for
-- its data, and an entry that is there can be overwritten where there is space for its data.
pub record IsSpacious (lib : MetadataLib) (mem : IsAllocator lib) (maps : IsMap lib) : Type 0 where
  pub add_fits :
      (p t a n : ℕ) (k : TagType) (s : lib.Store)
      → mem.live s p ≡ true
      → lib.tag_type t ≡ some k
      → maps.Held a n
      → maps.value s p t ≡ none
      → lib.entry_count s p + 1 ≤ lib.entry_capacity s p
      → lib.data_count s p + lib.entry_data_size k n ≤ lib.data_capacity s p
      → (lib.add_entry p t a n s).0 ≡ ok
  pub update_fits :
      (p t a n : ℕ) (k : TagType) (e : Entry) (s : lib.Store)
      → mem.live s p ≡ true
      → lib.tag_type t ≡ some k
      → maps.Held a n
      → is_some (maps.value s p t) ≡ true
      → lib.data_count s p + lib.entry_data_size k n ≤ lib.data_capacity s p
      → (lib.update_entry p (lib.find_entry s p t e).1.index a n s).0 ≡ ok

-- An entry that is found shows the value.
pub record IsShown (lib : MetadataLib) (maps : IsMap lib) : Type 0 where
  pub datum-find_entry :
      (s : lib.Store) (p t : ℕ) (e : Entry)
      → is_ok (lib.find_entry s p t e).0 ≡ true
      → some (maps.datum s (lib.find_entry s p t e).1.bytes (lib.find_entry s p t e).1.count)
        ≡ maps.value s p t

-- A call changes the entries of its own block only, and a clone has those of the block that it was
-- made from; of NULL it is NULL.
pub record IsLocal (lib : MetadataLib) (maps : IsMap lib) : Type 0 where
  pub value-clone :
      (p : ℕ) (s : lib.Store) (t : ℕ)
      → (lib.clone p s).0 ≢ 0
      → maps.value (lib.clone p s).1 (lib.clone p s).0 t ≡ maps.value s p t
  pub value-clone_ne :
      (p : ℕ) (s : lib.Store) (q t : ℕ)
      → q ≢ (lib.clone p s).0
      → maps.value (lib.clone p s).1 q t ≡ maps.value s q t
  pub clone_null : (s : lib.Store) → (lib.clone 0 s).0 ≡ 0
  pub datum-clone :
      (p : ℕ) (s : lib.Store) (a n : ℕ)
      → maps.Held a n
      → maps.datum (lib.clone p s).1 a n ≡ maps.datum s a n
  pub value-append_ne :
      (p r : ℕ) (s : lib.Store) (q t : ℕ)
      → q ≢ p
      → maps.value (lib.append p r s).1 q t ≡ maps.value s q t
  pub value-sort_ne :
      (p : ℕ) (s : lib.Store) (q t : ℕ) → q ≢ p → maps.value (lib.sort p s).1 q t ≡ maps.value s q t
  pub value-add_entry_ne :
      (p k a n : ℕ) (s : lib.Store) (q t : ℕ)
      → q ≢ p
      → maps.value (lib.add_entry p k a n s).1 q t ≡ maps.value s q t
  pub value-update_entry_ne :
      (p i a n : ℕ) (s : lib.Store) (q t : ℕ)
      → q ≢ p
      → maps.value (lib.update_entry p i a n s).1 q t ≡ maps.value s q t
  pub value-delete_entry_ne :
      (p i : ℕ) (s : lib.Store) (q t : ℕ)
      → q ≢ p
      → maps.value (lib.delete_entry p i s).1 q t ≡ maps.value s q t
