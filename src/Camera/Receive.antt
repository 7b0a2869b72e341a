-- ===== src/Camera/Receive.antt =====
-- CameraMetadata's methods on a Parcel, seen as calls on one object: what they keep, and which
-- errors they report.
use android_device_xiaomi_la.Common.{
  ℕ, ◌-◌, ◌≡◌, ◌≢◌, false, not, ◌&&◌, ◌||◌, arith, ◌==◌, add_size, bits32, signed32, pos, Status,
  ok, ◌⊎◌,
}
use android_device_xiaomi_la.Camera.Library.{MetadataLib, IsAllocator}
use android_device_xiaomi_la.Camera.Object.{CameraMetadata, clear}
use android_device_xiaomi_la.Camera.Blocks.{IsOwner, outside}
use android_device_xiaomi_la.Camera.Parcel.{
  ParcelLib, IsCopier, read_body, read_block, write_block, read_from_parcel,
}

module _ (lib : MetadataLib) (io : ParcelLib lib) where
  open lib use {Store}
  open io use {Parcel, write_int32, write_blob, alignment, compact_size}

  -- A read that fails leaves the object as it was, locked or not.
  read_from_parcel_fails :
      (p : Parcel) (m : CameraMetadata) (s : Store)
      → (read_from_parcel lib io p m s).0 ≢ ok
      → (read_from_parcel lib io p m s).1 ≡ m
  unfolding read_from_parcel clear
  read_from_parcel_fails p m s failed = ground arith

  -- An error of writeBlob does not reach the caller: with both numbers written, writeToParcel
  -- returns OK though the metadata is not in the parcel, and the memory is as it was.
  write_block_drops_error :
      (b : ℕ) (p p1 p2 p3 : Parcel) (s : Store) (res : Status) (addr : ℕ)
      → b ≢ 0
      → write_int32 (signed32 (add_size (compact_size s b) alignment)) p ≡ (ok, p1)
      → write_blob (add_size (compact_size s b) alignment) p1 ≡ (res, addr, p2)
      → res ≢ ok
      → write_int32 (pos 0) p2 ≡ (ok, p3)
      → write_block lib io b p s ≡ (ok, p3, s)
  unfolding write_block
  write_block_drops_error b p p1 p2 p3 s res addr nz first placed failed last = ground arith

module _ (lib : MetadataLib) (io : ParcelLib lib) (mem : IsAllocator lib)
    (copies : IsCopier lib io mem) where
  open lib use {Store, free}
  open io use {Parcel, read_int32, read_blob, alignment, allocate_copy}
  open mem use {live, live_null, live-free}
  open copies use {allocate_copy_fresh, live-allocate_copy}

  -- What reading a block does to the memory: the block that comes out, if any, is new, and all
  -- other blocks are as before.
  abbrev pub Reads : Store → ℕ → Status × ℕ × Parcel × Store → Type 0
  Reads s q (err, out, _, s') =
      (live s out ≡ false)
      × (live s' q ≡ (live s q || (q == out && not (q == 0))))
      × ((err ≡ ok) ⊎ (out ≡ 0))

  read_body-Reads : (n : ℕ) (p : Parcel) (s : Store) (q : ℕ) → Reads s q (read_body lib io n p s)
  unfolding read_body
  read_body-Reads n p s q =
      let p1 = (read_blob n p).2 in
      let a = add_size (read_blob n p).1 (bits32 (read_int32 p1).1) in
      ground (
        arith,
        live_null s,
        allocate_copy_fresh a (n - alignment) s,
        live-allocate_copy a (n - alignment) s q,
      )

  pub read_block-Reads : (p : Parcel) (s : Store) (q : ℕ) → Reads s q (read_block lib io p s)
  unfolding read_block
  read_block-Reads p s q =
      let p1 = (read_int32 p).2 in
      let n = bits32 (read_int32 p).1 in ground (arith, live_null s, read_body-Reads n p1 s q)

  -- Reading from a parcel neither leaks nor frees a block of somebody else: the object owns what it
  -- holds afterwards, and every block but its own is as before.
  pub read_from_parcel-outside :
      (p : Parcel) (m : CameraMetadata) (s : Store) (q : ℕ)
      → q ≢ 0
      → IsOwner lib mem m s
      → let (_, m', _, s') = read_from_parcel lib io p m s in
        IsOwner lib mem m' s' × (outside lib mem m' s' q ≡ outside lib mem m s q)
  unfolding read_from_parcel clear
  read_from_parcel-outside p m s q nz own =
      let out = (read_block lib io p s).1 in
      let s1 = (read_block lib io p s).3 in
      ground (
        arith,
        live_null s,
        live_null s1,
        read_block-Reads p s q,
        read_block-Reads p s out,
        read_block-Reads p s m.buffer,
        live-free m.buffer s1 q,
        live-free m.buffer s1 out,
      )
