-- ===== src/Camera/Update.antt =====
-- The class CameraMetadata: growing the block, and updating, finding and erasing entries.
use android_device_xiaomi_la.Common.{
  ℕ, ◌*◌, ◌%◌, Bool, true, false, ◌&&◌, ◌||◌, ltb, ◌==◌, if◌then◌else◌, none, some, word, add_size,
  Status, ok, no_memory, bad_value, invalid_operation, is_ok, is_missing,
}
use android_device_xiaomi_la.Camera.Library.{
  MetadataLib, Entry, TagType, byte, int32, float, int64, double, rational,
}
use android_device_xiaomi_la.Camera.Object.{CameraMetadata}

-- What the overloads of `update` take: an address and a number of elements, or the address and
-- size of a String8.
pub data Payload : Type 0 where
  int32s bytes floats int64s doubles rationals string : ℕ → ℕ → Payload

-- Comparison of tag types (`tagType != expectedType`).
abbrev pub same_type : TagType → TagType → Bool
same_type byte byte = true
same_type int32 int32 = true
same_type float float = true
same_type int64 int64 = true
same_type double double = true
same_type rational rational = true
same_type _ _ = false

-- `n > cap ? n * 2 : cap`
abbrev pub grown : ℕ → ℕ → ℕ
grown n cap = if ltb cap n then n * 2 % word else cap

module _ (lib : MetadataLib) where
  open lib use {
    Store, allocate, free, entry_count, entry_capacity, data_count, data_capacity, size,
    append as append_entries, tag_type, entry_data_size, find_entry, add_entry, update_entry,
    delete_entry,
  }

  -- The arm of resizeIfNeeded for a block that is there, with the new capacities.
  unfoldable pub reallocate : ℕ → ℕ → CameraMetadata → Store → Status × CameraMetadata × Store
  reallocate entry_cap data_cap m s =
      let (p, s1) = allocate entry_cap data_cap s in
      if p == 0
      then (no_memory, record m { buffer = 0 }, s1)
      else let (_, s2) = append_entries p m.buffer s1 in
        (ok, record m { buffer = p }, free m.buffer s2)

  unfoldable pub resize_if_needed : ℕ → ℕ → CameraMetadata → Store → Status × CameraMetadata × Store
  unfolding reallocate
  resize_if_needed extra_entries extra_data m s =
      if m.buffer == 0
      then (let (p, s1) = allocate (extra_entries * 2 % word) (extra_data * 2 % word) s in
          (if p == 0 then no_memory else ok, record m { buffer = p }, s1))
      else let entry_cap =
          grown (add_size (entry_count s m.buffer) extra_entries) (entry_capacity s m.buffer) in
        let data_cap =
          grown (add_size (data_count s m.buffer) extra_data) (data_capacity s m.buffer) in
        if ltb (entry_capacity s m.buffer) entry_cap || ltb (data_capacity s m.buffer) data_cap
        then reallocate entry_cap data_cap m s
        else (ok, m, s)

  -- append(const camera_metadata_t* other); the status of resizeIfNeeded is not looked at.
  unfoldable pub append : ℕ → CameraMetadata → Store → Status × CameraMetadata × Store
  append other m s =
      if m.locked
      then (invalid_operation, m, s)
      else let (_, m', s1) = resize_if_needed (entry_count s other) (data_count s other) m s in
        let (r, s2) = append_entries m'.buffer other s1 in (r, m', s2)

  -- append(const CameraMetadata &other)
  unfoldable pub append_object :
      CameraMetadata → CameraMetadata → Store → Status × CameraMetadata × Store
  unfolding append
  append_object other m s = append other.buffer m s

  unfoldable pub check_type : ℕ → TagType → Status
  check_type tag expected = elim (tag_type tag) [
    | none ↦ invalid_operation
    | some t ↦ if same_type t expected then ok else invalid_operation
  ]

  -- The lines of updateImpl after the block has been made large enough. The local `entry` is
  -- written by the search before it is read, so that its first value does not matter.
  unfoldable pub write_entry : ℕ → ℕ → ℕ → CameraMetadata → Store → Status × Store
  write_entry tag addr count m s =
      let (r, entry) = find_entry s m.buffer tag (record { index = 0; count = 0; bytes = 0 }) in
      if is_missing r
      then add_entry m.buffer tag addr count s
      else if is_ok r
      then update_entry m.buffer entry.index addr count s
      else (r, s)

  -- `dataAddr > bufAddr && dataAddr < (bufAddr + bufferSize)`
  abbrev pub inside : ℕ → CameraMetadata → Store → Bool
  inside addr m s = ltb m.buffer addr && ltb addr (add_size m.buffer (size s m.buffer))

  unfoldable pub update_impl : ℕ → ℕ → ℕ → CameraMetadata → Store → Status × CameraMetadata × Store
  unfolding write_entry
  update_impl tag addr count m s =
      if m.locked then (invalid_operation, m, s) else elim (tag_type tag) [
        | none ↦ (bad_value, m, s)
        | some t ↦
            if inside addr m s
            then (invalid_operation, m, s)
            else let (r, m', s1) = resize_if_needed 1 (entry_data_size t count) m s in
              if is_ok r
              then (let (r', s2) = write_entry tag addr count m' s1 in (r', m', s2))
              else (r, m', s1)
      ]

  -- One overload of `update`.
  unfoldable pub update_as :
      TagType → ℕ → ℕ → ℕ → CameraMetadata → Store → Status × CameraMetadata × Store
  unfolding check_type
  update_as expected tag addr count m s =
      if m.locked
      then (invalid_operation, m, s)
      else let r = check_type tag expected in
        if is_ok r then update_impl tag addr count m s else (r, m, s)

  -- The seven overloads; a string goes with its terminating zero.
  unfoldable pub update : ℕ → Payload → CameraMetadata → Store → Status × CameraMetadata × Store
  update tag (int32s addr count) = update_as int32 tag addr count
  update tag (bytes addr count) = update_as byte tag addr count
  update tag (floats addr count) = update_as float tag addr count
  update tag (int64s addr count) = update_as int64 tag addr count
  update tag (doubles addr count) = update_as double tag addr count
  update tag (rationals addr count) = update_as rational tag addr count
  update tag (string addr size) = update_as byte tag addr (add_size size 1)

  -- The last argument of the three functions below is what the uninitialised local holds.
  unfoldable pub exists : ℕ → CameraMetadata → Store → Entry → Bool
  exists tag m s entry = is_ok (find_entry s m.buffer tag entry).0

  -- find(uint32_t tag) const
  unfoldable pub find_const : ℕ → CameraMetadata → Store → Entry → Entry
  find_const tag m s entry =
      let (r, found) = find_entry s m.buffer tag entry in
      if is_ok r then found else record found { count = 0; bytes = 0 }

  unfoldable pub find : ℕ → CameraMetadata → Store → Entry → Entry
  find tag m s entry =
      if m.locked
      then record entry { count = 0 }
      else let (r, found) = find_entry s m.buffer tag entry in
        if is_ok r then found else record found { count = 0; bytes = 0 }

  unfoldable pub erase : ℕ → CameraMetadata → Store → Entry → Status × CameraMetadata × Store
  erase tag m s entry =
      if m.locked
      then (invalid_operation, m, s)
      else let (r, found) = find_entry s m.buffer tag entry in
        if is_missing r
        then (ok, m, s)
        else if is_ok r
        then (let (r', s') = delete_entry m.buffer found.index s in (r', m, s'))
        else (r, m, s)
