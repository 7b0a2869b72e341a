-- ===== src/Camera/Blocks.antt =====
-- The blocks that are allocated and are not an object's own, and what growing and updating an object
-- do to them.
use android_device_xiaomi_la.Common.{
  ℕ, ◌≡◌, ◌≢◌, ◌⊎◌, inl, inr, Bool, true, not, ◌&&◌, ◌||◌, arith, ◌==◌, if◌then◌else◌, Bool-cases,
  ltb, Option-cases, ◌*◌, ◌%◌, word, add_size, Status,
}
use android_device_xiaomi_la.Camera.Library.{MetadataLib, IsAllocator, TagType}
use android_device_xiaomi_la.Camera.Object.{CameraMetadata}
use android_device_xiaomi_la.Camera.Update.{
  Payload, int32s, bytes, floats, int64s, doubles, rationals, string, append, update, update_as,
  update_impl, write_entry, resize_if_needed, reallocate, grown,
}

module _ (lib : MetadataLib) (mem : IsAllocator lib) where
  open lib use {Store, allocate, clone, append as append_entries}
  open mem use {
    live, live_null, allocate_fresh, live-allocate, clone_fresh, live-clone, live-free, live-append,
    live-sort, live-add_entry, live-update_entry, live-delete_entry,
  }

  -- The object has no block, or one that is allocated.
  abbrev pub IsOwner : CameraMetadata → Store → Type 0
  IsOwner m s = (m.buffer ≡ 0) ⊎ (live s m.buffer ≡ true)

  -- The block `q` is allocated and is not the object's.
  abbrev pub outside : CameraMetadata → Store → ℕ → Bool
  outside m s q = live s q && not (q == m.buffer)

  -- What a call that takes nothing and hands out nothing leaves: `q` is outside as before, unless it
  -- is the old block and the object is left with none.
  abbrev pub Keeps : CameraMetadata → Store → ℕ → Status × CameraMetadata × Store → Type 0
  Keeps m s q (r, m', s') =
      IsOwner m' s'
      × (outside m' s' q ≡ (outside m s q || q == (if m'.buffer == 0 then m.buffer else 0)))

  reallocate_lem :
      (e d : ℕ) (m : CameraMetadata) (s : Store) (q : ℕ)
      → q ≢ 0
      → m.buffer ≢ 0
      → live s m.buffer ≡ true
      → Keeps m s q (reallocate lib e d m s)
  unfolding reallocate
  reallocate_lem e d m s q nz bz own =
      let p = (allocate e d s).0 in
      let s1 = (allocate e d s).1 in
      let s2 = (append_entries p m.buffer s1).1 in
      ground (
        arith,
        allocate_fresh e d s,
        live-allocate e d s q,
        live-allocate e d s p,
        live-append p m.buffer s1 q,
        live-append p m.buffer s1 p,
        live-free m.buffer s2 q,
        live-free m.buffer s2 p,
      )

  pub resize_lem :
      (x y : ℕ) (m : CameraMetadata) (s : Store) (q : ℕ)
      → q ≢ 0
      → IsOwner m s
      → Keeps m s q (resize_if_needed lib x y m s)
  unfolding resize_if_needed
  resize_lem x y m s q nz own =
      let e = x * 2 % word in
      let d = y * 2 % word in
      let e' = grown (add_size (lib.entry_count s m.buffer) x) (lib.entry_capacity s m.buffer) in
      let d' = grown (add_size (lib.data_count s m.buffer) y) (lib.data_capacity s m.buffer) in
      let p = (allocate e d s).0 in
      elim (Bool-cases (m.buffer == 0)) [
        | inl z ↦ rw z (
            ground (
              arith,
              live_null s,
              allocate_fresh e d s,
              live-allocate e d s q,
              live-allocate e d s p,
            ))
        | inr nz' ↦
            let h = reallocate_lem e' d' m s q nz (ground arith) (ground arith) in
            rw nz'
              (elim (Bool-cases
                (ltb (lib.entry_capacity s m.buffer) e' || ltb (lib.data_capacity s m.buffer) d')) [
                  | inl grow ↦ rw grow h
                  | inr fits ↦ rw fits (own, ground arith)
                ])
      ]

  pub append_lem :
      (p : ℕ) (m : CameraMetadata) (s : Store) (q : ℕ)
      → q ≢ 0
      → IsOwner m s
      → Keeps m s q (append lib p m s)
  unfolding append
  append_lem p m s q nz own =
      let x = lib.entry_count s p in
      let y = lib.data_count s p in
      let m1 = (resize_if_needed lib x y m s).1 in
      let s1 = (resize_if_needed lib x y m s).2 in
      ground (
        arith,
        live_null s,
        resize_lem x y m s q nz own,
        live-append m1.buffer p s1 q,
        live-append m1.buffer p s1 m1.buffer,
      )

  live-write_entry :
      (t a n : ℕ) (m : CameraMetadata) (s : Store) (q : ℕ)
      → live (write_entry lib t a n m s).1 q ≡ live s q
  unfolding write_entry
  live-write_entry t a n m s q =
      let i = (lib.find_entry s m.buffer t (record { index = 0; count = 0; bytes = 0 })).1.index in
      ground (arith, live-add_entry m.buffer t a n s q, live-update_entry m.buffer i a n s q)

  same-Keeps :
      (r : Status) (m : CameraMetadata) (s : Store) (q : ℕ)
      → q ≢ 0
      → IsOwner m s
      → Keeps m s q (r, m, s)
  same-Keeps r m s q nz own = ground (arith, live_null s)

  update_impl_lem :
      (t a n : ℕ) (m : CameraMetadata) (s : Store) (q : ℕ)
      → q ≢ 0
      → IsOwner m s
      → Keeps m s q (update_impl lib t a n m s)
  unfolding update_impl
  update_impl_lem t a n m s q nz own = elim (Option-cases (lib.tag_type t)) [
    | inl e ↦ rw (e, update_impl) (ground (arith, live_null s))
    | inr (k, e) ↦
        let y = lib.entry_data_size k n in
        let m1 = (resize_if_needed lib 1 y m s).1 in
        let s1 = (resize_if_needed lib 1 y m s).2 in
        rw (e, update_impl)
          (ground (
            arith,
            live_null s,
            resize_lem 1 y m s q nz own,
            live-write_entry t a n m1 s1 q,
            live-write_entry t a n m1 s1 m1.buffer,
          ))
  ]

  pub update_as_lem :
      (k : TagType) (t a n : ℕ) (m : CameraMetadata) (s : Store) (q : ℕ)
      → q ≢ 0
      → IsOwner m s
      → Keeps m s q (update_as lib k t a n m s)
  unfolding update_as
  update_as_lem k t a n m s q nz own =
      ground (arith, live_null s, update_impl_lem t a n m s q nz own)

  pub update_lem :
      (t : ℕ) (d : Payload) (m : CameraMetadata) (s : Store) (q : ℕ)
      → q ≢ 0
      → IsOwner m s
      → Keeps m s q (update lib t d m s)
  unfolding update
  update_lem t (int32s a n) m s q nz own = update_as_lem _ t a n m s q nz own
  update_lem t (bytes a n) m s q nz own = update_as_lem _ t a n m s q nz own
  update_lem t (floats a n) m s q nz own = update_as_lem _ t a n m s q nz own
  update_lem t (int64s a n) m s q nz own = update_as_lem _ t a n m s q nz own
  update_lem t (doubles a n) m s q nz own = update_as_lem _ t a n m s q nz own
  update_lem t (rationals a n) m s q nz own = update_as_lem _ t a n m s q nz own
  update_lem t (string a n) m s q nz own = update_as_lem _ t a _ m s q nz own
