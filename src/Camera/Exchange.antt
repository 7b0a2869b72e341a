-- ===== src/Camera/Exchange.antt =====
-- One object is written to a parcel, and another one reads it.
use android_device_xiaomi_la.Common.{
  ℕ, ◌+◌, ◌<◌, ◌≤◌, ◌≡◌, ◌≢◌, inl, inr, false, List, ◌++◌, [], arith, word, signed32, ok,
}
use android_device_xiaomi_la.Camera.Library.{MetadataLib, IsAllocator}
use android_device_xiaomi_la.Camera.Object.{CameraMetadata, clear}
use android_device_xiaomi_la.Camera.Blocks.{IsOwner}
use android_device_xiaomi_la.Camera.Parcel.{
  ParcelLib, IsFaithful, IsCopier, Item, read_block, read_from_parcel, write_block, write_to_parcel,
}
use android_device_xiaomi_la.Camera.Receive.{read_block-Reads}
use android_device_xiaomi_la.Camera.Transfer.{blob_size, blob_at, read_block-write_block}

-- Freeing a block leaves the metadata of the others.
pub record IsKept (lib : MetadataLib) (io : ParcelLib lib) (faith : IsFaithful lib io)
    : Type 0 where
  pub block-free :
      (p : ℕ) (s : lib.Store) (q : ℕ) → q ≢ p → faith.block (lib.free p s) q ≡ faith.block s q

module _ (lib : MetadataLib) (io : ParcelLib lib) (faith : IsFaithful lib io)
    (mem : IsAllocator lib) (copies : IsCopier lib io mem) (kept : IsKept lib io faith) where
  open lib use {Store}
  open io use {Parcel, write_int32, alignment, compact_size, allocate_copy}
  open mem use {live, live_null}
  open faith use {items, block, image}
  open kept use {block-free}

  -- Another object, not locked, that reads a parcel with what an object has written to an empty one,
  -- and anything after it, takes over the metadata: it reports OK, has a block with the metadata of
  -- the first object, and stops where that ends. Conditions: the writes succeed, the library makes
  -- a copy of the bytes of this metadata, the reader owns its block, sizes and the end of the blob's
  -- padding are below 2^32, and a block is not empty.
  pub read_from_parcel-write_to_parcel :
      (m o : CameraMetadata) (p q : Parcel) (s : Store) (rest : List Item)
      → m.buffer ≢ 0
      → o.locked ≡ false
      → IsOwner lib mem o (write_to_parcel lib io m p s).2
      → items p ≡ []
      → alignment ≢ 0
      → 0 < compact_size s m.buffer
      → compact_size s m.buffer + alignment < word
      → (blob_at lib io faith m.buffer p s).1 + alignment ≤ word
      → (write_int32 (signed32 (blob_size lib io faith m.buffer s)) p).0 ≡ ok
      → (blob_at lib io faith m.buffer p s).0 ≡ ok
      → (write_to_parcel lib io m p s).0 ≡ ok
      → items q ≡ items (write_to_parcel lib io m p s).1 ++ rest
      → ((a n : ℕ)
          → image (write_to_parcel lib io m p s).2 a n ≡ block s m.buffer
          → (allocate_copy a n (write_to_parcel lib io m p s).2).0 ≢ 0)
      → let (r, o', q', s') = read_from_parcel lib io q o (write_to_parcel lib io m p s).2 in
        (r ≡ ok)
        × (o'.buffer ≢ 0)
        × (block s' o'.buffer ≡ block s m.buffer)
        × (o'.locked ≡ false)
        × (items q' ≡ rest)
  unfolding write_to_parcel read_from_parcel clear
  read_from_parcel-write_to_parcel m o p q s rest nz open_ own empty az some_size small fits first
        placed done same makes =
      let s1 = (write_block lib io m.buffer p s).2 in
      let got =
        read_block-write_block lib io faith m.buffer p q s rest nz empty az some_size small fits
          first placed done same in
      let out = (read_block lib io q s1).1 in
      let s2 = (read_block lib io q s1).3 in
      elim got.1 [
        | inl (bad, null, (at, size, none, bytes)) ↦ absurd (makes at size bytes none)
        | inr (good, some_, copied) ↦
            let fresh = read_block-Reads lib io mem copies q s1 out in
            ground (arith, got.0, good, live_null s1, fresh, block-free o.buffer s2 out)
      ]
