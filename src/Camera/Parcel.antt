-- ===== src/Camera/Parcel.antt =====
-- The class CameraMetadata: writing to a Parcel and reading back. binder's Parcel and the calls of
-- libcamera_metadata that only these methods make are a parameter.
use android_device_xiaomi_la.Common.{
  ℕ, ◌+◌, ◌-◌, ◌*◌, ◌/◌, ◌%◌, ◌≡◌, ◌≢◌, ◌≤◌, false, not, ◌&&◌, ◌||◌, List, [], ◌∷◌, ◌++◌, leb, ◌==◌,
  if◌then◌else◌, word, add_size, bits32, signed32, ℤ, pos, Status, ok, bad_value, invalid_operation,
  is_ok,
}
use android_device_xiaomi_la.Camera.Library.{MetadataLib, IsAllocator}
use android_device_xiaomi_la.Camera.Object.{CameraMetadata, clear}

pub record ParcelLib (lib : MetadataLib) : Type 1 where
  pub Parcel : Type 0
  pub write_int32 : ℤ → Parcel → Status × Parcel
  pub read_int32 : Parcel → Status × ℤ × Parcel
  -- writeBlob and readBlob with the size; the number that comes back is blob.data().
  pub write_blob : ℕ → Parcel → Status × ℕ × Parcel
  pub read_blob : ℕ → Parcel → Status × ℕ × Parcel
  -- get_camera_metadata_alignment and get_camera_metadata_compact_size
  pub alignment : ℕ
  pub compact_size : lib.Store → ℕ → ℕ
  -- copy_camera_metadata(dst, dst_size, src)
  pub copy_block : ℕ → ℕ → ℕ → lib.Store → lib.Store
  -- allocate_copy_camera_metadata_checked(src, src_size)
  pub allocate_copy : ℕ → ℕ → lib.Store → ℕ × lib.Store

-- ALIGN_TO(val, alignment): for an alignment that is a power of two the mask clears the remainder.
unfoldable pub align_to : ℕ → ℕ → ℕ
align_to v a = add_size v (a - 1) / a * a

module _ (lib : MetadataLib) (io : ParcelLib lib) where
  open lib use {Store, free}
  open io use {
    Parcel, write_int32, read_int32, write_blob, read_blob, alignment, compact_size, copy_block,
    allocate_copy,
  }

  -- The part of readFromParcel from readBlob on.
  unfoldable pub read_body : ℕ → Parcel → Store → Status × ℕ × Parcel × Store
  read_body blob_size p s =
      let (err, addr, p1) = read_blob blob_size p in
      let (err', offset_tmp, p2) = read_int32 p1 in
      let (q, s') = allocate_copy (add_size addr (bits32 offset_tmp)) (blob_size - alignment) s in
      if is_ok err
      then (if is_ok err'
          then (if leb alignment (bits32 offset_tmp)
              then (bad_value, 0, p2, s)
              else ((if q == 0 then bad_value else ok), q, p2, s'))
          else (err', 0, p2, s))
      else (err, 0, p1, s)

  -- readFromParcel(const Parcel& data, camera_metadata_t** out) with an `out` to write to: status,
  -- *out, parcel, memory.
  unfoldable pub read_block : Parcel → Store → Status × ℕ × Parcel × Store
  unfolding read_body
  read_block p s =
      let (err, blob_size_tmp, p1) = read_int32 p in
      let blob_size = bits32 blob_size_tmp in
      if is_ok err
      then (if blob_size == 0
          then (ok, 0, p1, s)
          else if leb blob_size alignment
          then (bad_value, 0, p1, s)
          else read_body blob_size p1 s)
      else (err, 0, p1, s)

  -- The same call with `out` NULL: the copy is freed at once.
  unfoldable pub check_block : Parcel → Store → Status × Parcel × Store
  unfolding read_block
  check_block p s =
      let (err, q, p1, s1) = read_block p s in (err, p1, (if q == 0 then s1 else free q s1))

  -- The part of writeToParcel from writeBlob on. The status of writeBlob is overwritten by that of
  -- the last writeInt32.
  unfoldable pub write_body : ℕ → Parcel → Store → Status × Parcel × Store
  unfolding align_to
  write_body metadata p s =
      let size = compact_size s metadata in
      let (res, addr, p1) = write_blob (add_size size alignment) p in
      let start = align_to addr alignment in
      let offset = if is_ok res then (start + word - addr) % word else 0 in
      let s' = if is_ok res then copy_block start size metadata s else s in
      let (res', p2) = write_int32 (signed32 offset) p1 in (res', p2, s')

  -- writeToParcel(Parcel& data, const camera_metadata_t* metadata)
  unfoldable pub write_block : ℕ → Parcel → Store → Status × Parcel × Store
  unfolding write_body
  write_block metadata p s =
      if metadata == 0
      then (let (res, p1) = write_int32 (pos 0) p in (res, p1, s))
      else let (res, p1) =
          write_int32 (signed32 (add_size (compact_size s metadata) alignment)) p in
        if is_ok res then write_body metadata p1 s else (res, p1, s)

  -- readFromParcel(Parcel *parcel), with a parcel. Without one it returns BAD_VALUE.
  unfoldable pub read_from_parcel :
      Parcel → CameraMetadata → Store → Status × CameraMetadata × Parcel × Store
  unfolding read_block
  read_from_parcel p m s =
      if m.locked
      then (invalid_operation, m, p, s)
      else let (res, q, p1, s1) = read_block p s in
        let (m', s2) = clear lib m s1 in
        if is_ok res then (ok, record m' { buffer = q }, p1, s2) else (res, m, p1, s1)

  -- writeToParcel(Parcel *parcel) const, with a parcel.
  unfoldable pub write_to_parcel : CameraMetadata → Parcel → Store → Status × Parcel × Store
  unfolding write_block
  write_to_parcel m p s = write_block m.buffer p s

-- What a parcel holds, in the order in which it is read: numbers, and blobs by size and address.
pub data Item : Type 0 where
  int : ℤ → Item
  blob : ℕ → ℕ → Item

-- A parcel gives back what was written to it in the same order, a copied block is the block that
-- was copied, and the new block of a checked copy is the bytes that it was made from.
pub record IsFaithful (lib : MetadataLib) (io : ParcelLib lib) : Type 1 where
  pub items : io.Parcel → List Item
  pub Image : Type 0
  -- the metadata of a block, and of the given number of bytes at an address
  pub block : lib.Store → ℕ → Image
  pub image : lib.Store → ℕ → ℕ → Image
  pub items-write_int32 :
      (v : ℤ) (p : io.Parcel)
      → (io.write_int32 v p).0 ≡ ok
      → items (io.write_int32 v p).1 ≡ items p ++ (int v ∷ [])
  pub items-write_blob :
      (n : ℕ) (p : io.Parcel)
      → (io.write_blob n p).0 ≡ ok
      → items (io.write_blob n p).2 ≡ items p ++ (blob n (io.write_blob n p).1 ∷ [])
  pub read_int32_item :
      (v : ℤ) (p : io.Parcel) (rest : List Item)
      → items p ≡ int v ∷ rest
      → ((io.read_int32 p).0 ≡ ok) × ((io.read_int32 p).1 ≡ v) × (items (io.read_int32 p).2 ≡ rest)
  pub read_blob_item :
      (n a : ℕ) (p : io.Parcel) (rest : List Item)
      → items p ≡ blob n a ∷ rest
      → ((io.read_blob n p).0 ≡ ok) × (items (io.read_blob n p).2 ≡ rest)
  -- The address may be another one on reading; the bytes are the same.
  pub read_blob_image :
      (n a : ℕ) (p : io.Parcel) (rest : List Item) (s : lib.Store) (o k : ℕ)
      → items p ≡ blob n a ∷ rest
      → o + k ≤ n
      → image s (add_size (io.read_blob n p).1 o) k ≡ image s (add_size a o) k
  pub image-copy_block :
      (dst p : ℕ) (s : lib.Store)
      → dst % io.alignment ≡ 0
      → image (io.copy_block dst (io.compact_size s p) p s) dst (io.compact_size s p) ≡ block s p
  pub block-allocate_copy :
      (a n : ℕ) (s : lib.Store)
      → (io.allocate_copy a n s).0 ≢ 0
      → block (io.allocate_copy a n s).1 (io.allocate_copy a n s).0 ≡ image s a n

-- The checked copy allocates as `allocate` does.
pub record IsCopier (lib : MetadataLib) (io : ParcelLib lib) (mem : IsAllocator lib) : Type 0 where
  pub allocate_copy_fresh :
      (a n : ℕ) (s : lib.Store) → mem.live s (io.allocate_copy a n s).0 ≡ false
  pub live-allocate_copy :
      (a n : ℕ) (s : lib.Store) (q : ℕ)
      → mem.live (io.allocate_copy a n s).1 q
        ≡ (mem.live s q || (q == (io.allocate_copy a n s).0 && not (q == 0)))
