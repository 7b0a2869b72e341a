-- ===== src/Camera/Resize.antt =====
-- resizeIfNeeded makes the space that `append` and `update` go on to use.
use android_device_xiaomi_la.Common.{
  ℕ, ◌+◌, ◌*◌, ◌%◌, ◌≤◌, ◌<◌, ◌≡◌, ◌≢◌, refl, inl, inr, ◌⊎◌, eq_cases, true, false, ◌||◌, arith,
  ltb, ◌==◌, if◌then◌else◌, Bool-cases, word, add_size, Status, ok, no_memory,
}
use android_device_xiaomi_la.Camera.Library.{MetadataLib, IsAllocator, IsMeasured, room, Room}
use android_device_xiaomi_la.Camera.Object.{CameraMetadata}
use android_device_xiaomi_la.Camera.Update.{resize_if_needed, reallocate, grown}

-- What an object without a block holds: nothing.
abbrev pub held : Room → CameraMetadata → Room
held b m =
    if m.buffer == 0 then record { entries = 0; entry_cap = 0; octets = 0; octet_cap = 0 } else b

module _ (lib : MetadataLib) (mem : IsAllocator lib) (rooms : IsMeasured lib) where
  open lib use {Store, allocate, append as append_entries}
  open mem use {live, allocate_fresh}
  open rooms use {room-allocate, room-allocate_ne, append_fits, room-free}

  abbrev pub held_by : CameraMetadata → Store → Room
  held_by m s = held (room lib s m.buffer) m

  -- Space for `x` more entries and `y` more bytes, over what the object held before.
  abbrev pub Roomy : ℕ → ℕ → CameraMetadata → Store → Status × CameraMetadata × Store → Type 0
  Roomy x y m s (r, m', s') =
      (r ≡ ok)
      × (m'.buffer ≢ 0)
      × ((room lib s' m'.buffer).entries ≡ (held_by m s).entries)
      × ((room lib s' m'.buffer).octets ≡ (held_by m s).octets)
      × ((held_by m s).entries + x ≤ (room lib s' m'.buffer).entry_cap)
      × ((held_by m s).octets + y ≤ (room lib s' m'.buffer).octet_cap)

  reallocate-Roomy :
      (e d x y : ℕ) (m : CameraMetadata) (s : Store)
      → m.buffer ≢ 0
      → live s m.buffer ≡ true
      → (room lib s m.buffer).entries + x ≤ e
      → (room lib s m.buffer).octets + y ≤ d
      → (allocate e d s).0 ≢ 0
      → Roomy x y m s (reallocate lib e d m s)
  unfolding reallocate
  reallocate-Roomy e d x y m s bz own he hd ok_alloc =
      let p = (allocate e d s).0 in
      let s1 = (allocate e d s).1 in
      let s2 = (append_entries p m.buffer s1).1 in
      ground (
        arith,
        allocate_fresh e d s,
        room-allocate e d s ok_alloc,
        room-allocate_ne e d s m.buffer,
        append_fits p m.buffer s1,
        room-free m.buffer s2 p,
      )

  -- An allocation returns NULL, and the object is left without a block; or there is room.
  pub record Resized (x y : ℕ) (m : CameraMetadata) (s : Store)
      (out : Status × CameraMetadata × Store) : Type 0 where
    pub outcome :
        ((out.0 ≡ no_memory) × (out.1.buffer ≡ 0) × ((e : ℕ) × (d : ℕ) × ((allocate e d s).0 ≡ 0)))
        ⊎ Roomy x y m s out

  reallocate-Resized :
      (e d x y : ℕ) (m : CameraMetadata) (s : Store)
      → m.buffer ≢ 0
      → live s m.buffer ≡ true
      → (room lib s m.buffer).entries + x ≤ e
      → (room lib s m.buffer).octets + y ≤ d
      → Resized x y m s (reallocate lib e d m s)
  reallocate-Resized e d x y m s bz own he hd = elim (eq_cases (allocate e d s).0 0) [
    | inl z ↦ record {
      outcome =
          inl (unfold reallocate in ground arith, unfold reallocate in ground arith, (e, d, z));
    }
    | inr nz ↦ record { outcome = inr (reallocate-Roomy e d x y m s bz own he hd nz) }
  ]

  pub grown_ge : (n x cap : ℕ) → (n + x) * 2 < word → n + x ≤ grown (add_size n x) cap
  grown_ge n x cap h = ground arith

  null-Resized :
      (x y : ℕ) (m : CameraMetadata) (s : Store)
      → m.buffer ≡ 0
      → x * 2 < word
      → y * 2 < word
      → Resized x y m s (resize_if_needed lib x y m s)
  unfolding resize_if_needed
  null-Resized x y m s z hx hy =
      let e = x * 2 % word in
      let d = y * 2 % word in
      elim (eq_cases (allocate e d s).0 0) [
        | inl none ↦ record { outcome = inl (ground arith, ground arith, (e, d, none)) }
        | inr nz ↦ record { outcome = inr (ground (arith, room-allocate e d s nz)) }
      ]

  pub resize_of_block :
      (x y : ℕ) (m : CameraMetadata) (s : Store)
      → (m.buffer == 0) ≡ false
      → resize_if_needed lib x y m s ≡ (
          let e = grown (add_size (lib.entry_count s m.buffer) x) (lib.entry_capacity s m.buffer) in
          let d = grown (add_size (lib.data_count s m.buffer) y) (lib.data_capacity s m.buffer) in
          if ltb (lib.entry_capacity s m.buffer) e || ltb (lib.data_capacity s m.buffer) d
          then reallocate lib e d m s
          else (ok, m, s))
  unfolding resize_if_needed
  resize_of_block x y m s nz = rw nz refl

  -- resizeIfNeeded reports NO_MEMORY and leaves the object without a block, which it does only
  -- where the library returns NULL for a block of some capacities, or reports OK and leaves a block
  -- with the same number of entries and bytes as before and space for the extra ones. It is stated
  -- for sizes whose doubling stays below 2^32.
  pub resize_if_needed-Resized :
      (x y : ℕ) (m : CameraMetadata) (s : Store)
      → (m.buffer ≡ 0) ⊎ (live s m.buffer ≡ true)
      → ((held_by m s).entries + x) * 2 < word
      → ((held_by m s).octets + y) * 2 < word
      → Resized x y m s (resize_if_needed lib x y m s)
  resize_if_needed-Resized x y m s own hx hy = elim (Bool-cases (m.buffer == 0)) [
    | inl z ↦ null-Resized x y m s (ground arith) (ground arith) (ground arith)
    | inr nz ↦
        let n = lib.entry_count s m.buffer in
        let k = lib.data_count s m.buffer in
        let e = grown (add_size n x) (lib.entry_capacity s m.buffer) in
        let d = grown (add_size k y) (lib.data_capacity s m.buffer) in
        let cond = ltb (lib.entry_capacity s m.buffer) e || ltb (lib.data_capacity s m.buffer) d in
        rw (resize_of_block x y m s nz) (elim (Bool-cases cond) [
          | inl grow ↦ rw grow (
              reallocate-Resized e d x y m s (ground arith) (ground arith)
                (ground (arith, grown_ge n x (lib.entry_capacity s m.buffer)))
                (ground (arith, grown_ge k y (lib.data_capacity s m.buffer))))
          | inr fits ↦ rw fits (record { outcome = inr (ground arith) })
        ])
  ]
