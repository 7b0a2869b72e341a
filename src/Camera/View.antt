-- ===== src/Camera/View.antt =====
-- The object seen as a map from tags to values: what `update` and `erase` do to it, and that the
-- growth of the block does nothing to it.
use android_device_xiaomi_la.Common.{
  ℕ, ◌+◌, ◌*◌, ◌%◌, ◌≤◌, ◌<◌, ◌≡◌, ◌≢◌, ◌⊎◌, inl, inr, refl, true, ◌||◌, Option, none, some,
  Option-cases, Bool-cases, ◌==◌, ltb, if◌then◌else◌, arith, word, add_size, Status, ok,
}
use android_device_xiaomi_la.Camera.Library.{
  MetadataLib, IsAllocator, IsMeasured, TagType, Entry, room,
}
use android_device_xiaomi_la.Camera.Object.{CameraMetadata}
use android_device_xiaomi_la.Camera.Update.{
  grown, reallocate, resize_if_needed, check_type, write_entry, update_impl, update_as, erase,
}
use android_device_xiaomi_la.Camera.Guards.{update_as_accepted}
use android_device_xiaomi_la.Camera.Resize.{held_by, grown_ge, resize_of_block}
use android_device_xiaomi_la.Camera.Maps.{IsMap}

module _ (lib : MetadataLib) (mem : IsAllocator lib) (rooms : IsMeasured lib)
    (maps : IsMap lib) where
  open lib use {Store, allocate, append as append_entries}
  open mem use {live, allocate_fresh}
  open rooms use {room-allocate, room-allocate_ne, append_fits}
  open maps use {
    Value, value, datum, Held, value_null, find_ok, find_missing, value-add_entry,
    value-update_entry, value-delete_entry, value-allocate, value-allocate_ne, value-free,
    value-append, datum-allocate, datum-append, datum-free, datum-add_entry, datum-update_entry,
  }

  -- The value of a tag in an object.
  abbrev pub view : CameraMetadata → Store → ℕ → Option Value
  view m s t = value s m.buffer t

  -- The object has a block with the same view, and the data is where it was.
  abbrev Same : ℕ → ℕ → ℕ → CameraMetadata → Store → Status × CameraMetadata × Store → Type 0
  Same t a n m s (r, m', s') =
      (m'.buffer ≢ 0) × (view m' s' t ≡ view m s t) × (datum s' a n ≡ datum s a n)

  reallocate-Same :
      (e d x y t a n : ℕ) (m : CameraMetadata) (s : Store)
      → m.buffer ≢ 0
      → live s m.buffer ≡ true
      → Held a n
      → (room lib s m.buffer).entries + x ≤ e
      → (room lib s m.buffer).octets + y ≤ d
      → (reallocate lib e d m s).0 ≡ ok
      → Same t a n m s (reallocate lib e d m s)
  unfolding reallocate
  reallocate-Same e d x y t a n m s bz own held he hd good =
      let p = (allocate e d s).0 in
      let s1 = (allocate e d s).1 in
      let s2 = (append_entries p m.buffer s1).1 in
      ground (
        arith,
        allocate_fresh e d s,
        room-allocate e d s,
        room-allocate_ne e d s m.buffer,
        append_fits p m.buffer s1,
        value-append p m.buffer s1 t,
        value-allocate_ne e d s m.buffer t,
        value-free m.buffer s2 p t,
        datum-allocate e d s a n held,
        datum-append p m.buffer s1 a n held,
        datum-free m.buffer s2 a n held,
      )

  resize-Same :
      (x y t a n : ℕ) (m : CameraMetadata) (s : Store)
      → (m.buffer ≡ 0) ⊎ (live s m.buffer ≡ true)
      → Held a n
      → ((held_by lib mem rooms m s).entries + x) * 2 < word
      → ((held_by lib mem rooms m s).octets + y) * 2 < word
      → (resize_if_needed lib x y m s).0 ≡ ok
      → Same t a n m s (resize_if_needed lib x y m s)
  resize-Same x y t a n m s own held hx hy good = elim (Bool-cases (m.buffer == 0)) [
    | inl z ↦
        let c = x * 2 % word in
        let d = y * 2 % word in
        unfold resize_if_needed in
        ground (arith, value-allocate c d s t, value_null s t, datum-allocate c d s a n held)
    | inr nz ↦
        let i = lib.entry_count s m.buffer in
        let k = lib.data_count s m.buffer in
        let e = grown (add_size i x) (lib.entry_capacity s m.buffer) in
        let d = grown (add_size k y) (lib.data_capacity s m.buffer) in
        let form = resize_of_block lib mem rooms x y m s nz in
        let cond = ltb (lib.entry_capacity s m.buffer) e || ltb (lib.data_capacity s m.buffer) d in
        elim (Bool-cases cond) [
          | inl grow ↦
              let same : resize_if_needed lib x y m s ≡ reallocate lib e d m s = ground arith in
              rw same (
                reallocate-Same e d x y t a n m s (ground arith) (ground arith) held
                  (ground (arith, grown_ge lib mem rooms i x (lib.entry_capacity s m.buffer)))
                  (ground (arith, grown_ge lib mem rooms k y (lib.data_capacity s m.buffer)))
                  (ground arith))
          | inr fits ↦
              let same : resize_if_needed lib x y m s ≡ (ok, m, s) = ground arith in
              rw same (ground arith, refl, refl)
        ]
  ]

  write_entry-view :
      (tag a n : ℕ) (m : CameraMetadata) (s : Store) (t : ℕ)
      → m.buffer ≢ 0
      → (write_entry lib tag a n m s).0 ≡ ok
      → view m (write_entry lib tag a n m s).1 t
        ≡ (if t == tag then some (datum s a n) else view m s t)
  unfolding write_entry
  write_entry-view tag a n m s t nz good =
      let e : Entry = record { index = 0; count = 0; bytes = 0 } in
      elim (Option-cases (value s m.buffer tag)) [
        | inl absent ↦ ground (
          arith,
          absent,
          find_ok s m.buffer tag e,
          find_missing s m.buffer tag e,
          value-add_entry m.buffer tag a n s t,
        )
        | inr (v, there) ↦ ground (
          arith,
          there,
          find_ok s m.buffer tag e,
          find_missing s m.buffer tag e,
          value-update_entry m.buffer tag a n e s t,
        )
      ]

  -- Data of the caller's own is where it was after an update that reports OK.
  pub datum-update_as :
      (k : TagType) (tag b c : ℕ) (m : CameraMetadata) (s : Store) (a n : ℕ)
      → (m.buffer ≡ 0) ⊎ (live s m.buffer ≡ true)
      → Held a n
      → ((held_by lib mem rooms m s).entries + 1) * 2 < word
      → ((held_by lib mem rooms m s).octets + lib.entry_data_size k c) * 2 < word
      → (update_as lib k tag b c m s).0 ≡ ok
      → datum (update_as lib k tag b c m s).2 a n ≡ datum s a n
  unfolding update_as update_impl check_type write_entry
  datum-update_as k tag b c m s a n own held hx hy good =
      let r = resize_if_needed lib 1 (lib.entry_data_size k c) m s in
      let e : Entry = record { index = 0; count = 0; bytes = 0 } in
      let i = (lib.find_entry r.2 r.1.buffer tag e).1.index in
      ground (
        arith,
        update_as_accepted lib k tag b c m s good,
        resize-Same 1 (lib.entry_data_size k c) 0 a n m s own held hx hy,
        datum-add_entry r.1.buffer tag b c r.2 a n held,
        datum-update_entry r.1.buffer i b c r.2 a n held,
      )

  -- An update that reports OK sets the tag to the data that was passed, and changes no other tag,
  -- also when the block had to grow. Conditions: the object owns its block, the data is in memory of
  -- the caller's own, and the sizes stay below 2^32 when doubled.
  pub view-update_as :
      (k : TagType) (tag a n : ℕ) (m : CameraMetadata) (s : Store) (t : ℕ)
      → (m.buffer ≡ 0) ⊎ (live s m.buffer ≡ true)
      → Held a n
      → ((held_by lib mem rooms m s).entries + 1) * 2 < word
      → ((held_by lib mem rooms m s).octets + lib.entry_data_size k n) * 2 < word
      → (update_as lib k tag a n m s).0 ≡ ok
      → let (_, m', s') = update_as lib k tag a n m s in
        view m' s' t ≡ (if t == tag then some (datum s a n) else view m s t)
  unfolding update_as update_impl check_type
  view-update_as k tag a n m s t own held hx hy good =
      let y = lib.entry_data_size k n in
      let r = resize_if_needed lib 1 y m s in
      let passed = update_as_accepted lib k tag a n m s good in
      ground (
        arith,
        passed,
        resize-Same 1 y t a n m s own held hx hy,
        write_entry-view tag a n r.1 r.2 t,
      )

  -- An erase that reports OK removes the tag and changes no other, whether or not it was there.
  pub view-erase :
      (tag : ℕ) (m : CameraMetadata) (s : Store) (e : Entry) (t : ℕ)
      → (erase lib tag m s e).0 ≡ ok
      → let (_, m', s') = erase lib tag m s e in
        view m' s' t ≡ (if t == tag then none else view m s t)
  unfolding erase
  view-erase tag m s e t good = elim (Option-cases (value s m.buffer tag)) [
    | inl absent ↦ ground (arith, absent, find_ok s m.buffer tag e, find_missing s m.buffer tag e)
    | inr (v, there) ↦ ground (
      arith,
      there,
      find_ok s m.buffer tag e,
      find_missing s m.buffer tag e,
      value-delete_entry m.buffer tag e s t,
    )
  ]
