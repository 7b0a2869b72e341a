-- ===== src/Camera/Frame.antt =====
-- What is outside an object stays as it is: the calls on one object do not change the entries of a
-- block that belongs to another.
use android_device_xiaomi_la.Common.{
  ℕ, ◌*◌, ◌%◌, ◌≡◌, ◌≢◌, true, arith, Option-cases, inl, inr, word, add_size,
}
use android_device_xiaomi_la.Camera.Library.{MetadataLib, IsAllocator, TagType}
use android_device_xiaomi_la.Camera.Object.{
  CameraMetadata, assign, clear, release, acquire, get_and_lock, unlock, sort,
}
use android_device_xiaomi_la.Camera.Update.{
  Payload, int32s, bytes, floats, int64s, doubles, rationals, string, append, update, update_as,
  update_impl, write_entry, resize_if_needed, reallocate, grown, erase,
}
use android_device_xiaomi_la.Camera.Calls.{
  Call, assigns, acquires, unlocks, appends, clears, releases, locks, sorts, updates, erases, step,
}
use android_device_xiaomi_la.Camera.Blocks.{IsOwner, outside, resize_lem}
use android_device_xiaomi_la.Camera.Maps.{IsMap, IsLocal}

module _ (lib : MetadataLib) (mem : IsAllocator lib) (maps : IsMap lib)
    (locals : IsLocal lib maps) where
  open lib use {Store, allocate, clone, append as append_entries}
  open mem use {live, live_null, allocate_fresh, clone_fresh, live-clone}
  open maps use {value, value-allocate_ne, value-free}
  open locals use {
    value-clone, value-clone_ne, value-append_ne, value-sort_ne, value-add_entry_ne,
    value-update_entry_ne, value-delete_entry_ne,
  }

  value-reallocate :
      (e d : ℕ) (m : CameraMetadata) (s : Store) (q t : ℕ)
      → outside lib mem m s q ≡ true
      → value (reallocate lib e d m s).2 q t ≡ value s q t
  unfolding reallocate
  value-reallocate e d m s q t out =
      let p = (allocate e d s).0 in
      let s1 = (allocate e d s).1 in
      let s2 = (append_entries p m.buffer s1).1 in
      ground (
        arith,
        allocate_fresh e d s,
        value-allocate_ne e d s q t,
        value-append_ne p m.buffer s1 q t,
        value-free m.buffer s2 q t,
      )

  value-resize :
      (x y : ℕ) (m : CameraMetadata) (s : Store) (q t : ℕ)
      → outside lib mem m s q ≡ true
      → value (resize_if_needed lib x y m s).2 q t ≡ value s q t
  unfolding resize_if_needed
  value-resize x y m s q t out =
      let c = x * 2 % word in
      let k = y * 2 % word in
      let e = grown (add_size (lib.entry_count s m.buffer) x) (lib.entry_capacity s m.buffer) in
      let d = grown (add_size (lib.data_count s m.buffer) y) (lib.data_capacity s m.buffer) in
      ground
        (arith, allocate_fresh c k s, value-allocate_ne c k s q t, value-reallocate e d m s q t out)

  value-write_entry :
      (k a n : ℕ) (m : CameraMetadata) (s : Store) (q t : ℕ)
      → q ≢ m.buffer
      → value (write_entry lib k a n m s).1 q t ≡ value s q t
  unfolding write_entry
  value-write_entry k a n m s q t ne =
      let i = (lib.find_entry s m.buffer k (record { index = 0; count = 0; bytes = 0 })).1.index in
      ground (
        arith,
        value-add_entry_ne m.buffer k a n s q t ne,
        value-update_entry_ne m.buffer i a n s q t ne,
      )

  -- The block is not the object's after it has grown.
  resize-ne :
      (x y : ℕ) (m : CameraMetadata) (s : Store) (q : ℕ)
      → q ≢ 0
      → IsOwner lib mem m s
      → outside lib mem m s q ≡ true
      → q ≢ (resize_if_needed lib x y m s).1.buffer
  resize-ne x y m s q nz own out = ground (arith, resize_lem lib mem x y m s q nz own)

  pub value-update_as :
      (j : TagType) (k a n : ℕ) (m : CameraMetadata) (s : Store) (q t : ℕ)
      → q ≢ 0
      → IsOwner lib mem m s
      → outside lib mem m s q ≡ true
      → value (update_as lib j k a n m s).2 q t ≡ value s q t
  unfolding update_as update_impl
  value-update_as j k a n m s q t nz own out = elim (Option-cases (lib.tag_type k)) [
    | inl e ↦ rw (e, update_impl) (ground arith)
    | inr (i, e) ↦
        let y = lib.entry_data_size i n in
        let m1 = (resize_if_needed lib 1 y m s).1 in
        let s1 = (resize_if_needed lib 1 y m s).2 in
        let ne = resize-ne 1 y m s q nz own out in
        rw (e, update_impl)
          (ground (arith, value-resize 1 y m s q t out, value-write_entry k a n m1 s1 q t ne))
  ]

  value-update :
      (k : ℕ) (d : Payload) (m : CameraMetadata) (s : Store) (q t : ℕ)
      → q ≢ 0
      → IsOwner lib mem m s
      → outside lib mem m s q ≡ true
      → value (update lib k d m s).2 q t ≡ value s q t
  unfolding update
  value-update k (int32s a n) m s q t nz own out = value-update_as _ k a n m s q t nz own out
  value-update k (bytes a n) m s q t nz own out = value-update_as _ k a n m s q t nz own out
  value-update k (floats a n) m s q t nz own out = value-update_as _ k a n m s q t nz own out
  value-update k (int64s a n) m s q t nz own out = value-update_as _ k a n m s q t nz own out
  value-update k (doubles a n) m s q t nz own out = value-update_as _ k a n m s q t nz own out
  value-update k (rationals a n) m s q t nz own out = value-update_as _ k a n m s q t nz own out
  value-update k (string a n) m s q t nz own out = value-update_as _ k a _ m s q t nz own out

  value-append :
      (p : ℕ) (m : CameraMetadata) (s : Store) (q t : ℕ)
      → q ≢ 0
      → IsOwner lib mem m s
      → outside lib mem m s q ≡ true
      → value (append lib p m s).2 q t ≡ value s q t
  unfolding append
  value-append p m s q t nz own out =
      let x = lib.entry_count s p in
      let y = lib.data_count s p in
      let m1 = (resize_if_needed lib x y m s).1 in
      let s1 = (resize_if_needed lib x y m s).2 in
      ground (
        arith,
        value-resize x y m s q t out,
        resize-ne x y m s q nz own out,
        value-append_ne m1.buffer p s1 q t,
      )

  -- A call leaves the entries of a block that is outside the object.
  pub value-step :
      (c : Call) (m : CameraMetadata) (s : Store) (q t : ℕ)
      → q ≢ 0
      → IsOwner lib mem m s
      → outside lib mem m s q ≡ true
      → value (step lib c (m, s)).1 q t ≡ value s q t
  unfolding step assign acquire unlock clear release get_and_lock sort erase
  value-step (assigns p) m s q t nz own out =
      let s1 = (clone p s).1 in
      ground (arith, clone_fresh p s, value-clone_ne p s q t, value-free m.buffer s1 q t)
  value-step (acquires p) m s q t nz own out = ground (arith, value-free m.buffer s q t)
  value-step (unlocks p) m s q t nz own out = ground arith
  value-step (appends p) m s q t nz own out = ground (arith, value-append p m s q t nz own out)
  value-step clears m s q t nz own out = ground (arith, value-free m.buffer s q t)
  value-step releases m s q t nz own out = ground arith
  value-step locks m s q t nz own out = ground arith
  value-step sorts m s q t nz own out = ground (arith, value-sort_ne m.buffer s q t)
  value-step (updates k d) m s q t nz own out = ground (arith, value-update k d m s q t nz own out)
  value-step (erases k e) m s q t nz own out =
      let i = (lib.find_entry s m.buffer k e).1.index in
      ground (arith, value-delete_entry_ne m.buffer i s q t)
