-- ===== src/Camera/Object.antt =====
-- The class CameraMetadata: construction, ownership and the lock. A method takes the object and
-- the memory and returns both; logging and validation that only logs are left out.
use android_device_xiaomi_la.Common.{
  ℕ, Bool, true, false, ◌==◌, if◌then◌else◌, Status, ok, bad_value, invalid_operation,
}
use android_device_xiaomi_la.Camera.Library.{MetadataLib}

pub record CameraMetadata : Type 0 where
  pub buffer : ℕ
  pub locked : Bool

module _ (lib : MetadataLib) where
  open lib use {Store, allocate, clone, free, entry_count, sort as sort_entries}

  -- CameraMetadata()
  unfoldable pub empty : CameraMetadata
  empty = record { buffer = 0; locked = false }

  -- CameraMetadata(size_t entryCapacity, size_t dataCapacity)
  unfoldable pub with_capacity : ℕ → ℕ → Store → CameraMetadata × Store
  with_capacity entries bytes s =
      let (p, s') = allocate entries bytes s in (record { buffer = p; locked = false }, s')

  -- CameraMetadata(const CameraMetadata &other)
  unfoldable pub copy : CameraMetadata → Store → CameraMetadata × Store
  copy other s = let (p, s') = clone other.buffer s in (record { buffer = p; locked = false }, s')

  unfoldable pub clear : CameraMetadata → Store → CameraMetadata × Store
  clear m s =
      if m.locked
      then (m, s)
      else if m.buffer == 0
      then (m, s)
      else (record m { buffer = 0 }, free m.buffer s)

  -- operator=(const camera_metadata_t *buffer)
  unfoldable pub assign : ℕ → CameraMetadata → Store → CameraMetadata × Store
  unfolding clear
  assign p m s =
      if m.locked
      then (m, s)
      else if p == m.buffer
      then (m, s)
      else let (q, s1) = clone p s in let (m', s2) = clear m s1 in (record m' { buffer = q }, s2)

  -- operator=(const CameraMetadata &other)
  unfoldable pub assign_object : CameraMetadata → CameraMetadata → Store → CameraMetadata × Store
  unfolding assign
  assign_object other m s = assign other.buffer m s

  -- ~CameraMetadata()
  unfoldable pub destroy : CameraMetadata → Store → CameraMetadata × Store
  unfolding clear
  destroy m s = clear (record m { locked = false }) s

  unfoldable pub get_and_lock : CameraMetadata → ℕ × CameraMetadata
  get_and_lock m = (m.buffer, record m { locked = true })

  unfoldable pub unlock : ℕ → CameraMetadata → Status × CameraMetadata
  unlock p m =
      if m.locked
      then if p == m.buffer then (ok, record m { locked = false }) else (bad_value, m)
      else (invalid_operation, m)

  unfoldable pub release : CameraMetadata → ℕ × CameraMetadata
  release m = if m.locked then (0, m) else (m.buffer, record m { buffer = 0 })

  -- acquire(camera_metadata_t *buffer)
  unfoldable pub acquire : ℕ → CameraMetadata → Store → CameraMetadata × Store
  unfolding clear
  acquire p m s =
      if m.locked then (m, s) else let (m', s') = clear m s in (record m' { buffer = p }, s')

  -- CameraMetadata(camera_metadata_t *buffer)
  unfoldable pub of_buffer : ℕ → Store → CameraMetadata × Store
  unfolding acquire empty
  of_buffer p s = acquire p empty s

  -- acquire(CameraMetadata &other), for another object than this one: this, other, memory.
  unfoldable pub acquire_object :
      CameraMetadata → CameraMetadata → Store → CameraMetadata × CameraMetadata × Store
  unfolding acquire release
  acquire_object m other s =
      if m.locked
      then (m, other, s)
      else let (p, other') = release other in let (m', s') = acquire p m s in (m', other', s')

  unfoldable pub entry_total : CameraMetadata → Store → ℕ
  entry_total m s = if m.buffer == 0 then 0 else entry_count s m.buffer

  unfoldable pub is_empty : CameraMetadata → Store → Bool
  unfolding entry_total
  is_empty m s = entry_total m s == 0

  unfoldable pub sort : CameraMetadata → Store → Status × CameraMetadata × Store
  sort m s =
      if m.locked
      then (invalid_operation, m, s)
      else let (r, s') = sort_entries m.buffer s in (r, m, s')

  -- swap(CameraMetadata& other): this, other.
  unfoldable pub swap : CameraMetadata → CameraMetadata → CameraMetadata × CameraMetadata
  swap m other =
      if m.locked
      then (m, other)
      else if other.locked
      then (m, other)
      else (record m { buffer = other.buffer }, record other { buffer = m.buffer })
