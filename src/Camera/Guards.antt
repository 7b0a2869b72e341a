-- ===== src/Camera/Guards.antt =====
-- The guards of `update`: what is refused before anything is touched.
use android_device_xiaomi_la.Common.{
  ℕ, ◌≡◌, ◌≢◌, ◌⊎◌, inl, inr, true, false, some, arith, Option-cases, ok, invalid_operation,
}
use android_device_xiaomi_la.Camera.Library.{
  MetadataLib, TagType, byte, int32, float, int64, double, rational,
}
use android_device_xiaomi_la.Camera.Object.{CameraMetadata}
use android_device_xiaomi_la.Camera.Update.{update_as, update_impl, check_type, same_type, inside}

pub same_type_eq : (j k : TagType) → same_type j k ≡ true → j ≡ k
same_type_eq byte k h = ground arith
same_type_eq int32 k h = ground arith
same_type_eq float k h = ground arith
same_type_eq int64 k h = ground arith
same_type_eq double k h = ground arith
same_type_eq rational k h = ground arith

module _ (lib : MetadataLib) where
  open lib use {Store, tag_type}

  -- An overload of `update` refuses a locked object, a tag that is unknown or of another type, and
  -- data that lies inside the object's own block: it returns INVALID_OPERATION and changes neither
  -- the object nor the memory.
  pub update_as_refused :
      (k : TagType) (tag addr count : ℕ) (m : CameraMetadata) (s : Store)
      → (m.locked ≡ true) ⊎ (tag_type tag ≢ some k) ⊎ (inside lib addr m s ≡ true)
      → update_as lib k tag addr count m s ≡ (invalid_operation, m, s)
  unfolding update_as update_impl check_type
  update_as_refused k tag addr count m s why = elim (Option-cases (tag_type tag)) [
    | inl e ↦ rw (e, check_type) (ground arith)
    | inr (j, e) ↦ ground (arith, same_type_eq j k)
  ]

  -- An update that reports OK has passed every guard: the object was not locked, the tag has the
  -- type of the overload, and the data was not inside the block.
  pub update_as_accepted :
      (k : TagType) (tag addr count : ℕ) (m : CameraMetadata) (s : Store)
      → (update_as lib k tag addr count m s).0 ≡ ok
      → (m.locked ≡ false) × (tag_type tag ≡ some k) × (inside lib addr m s ≡ false)
  unfolding update_as update_impl check_type
  update_as_accepted k tag addr count m s done = elim (Option-cases (tag_type tag)) [
    | inl e ↦ ground arith
    | inr (j, e) ↦ ground (arith, same_type_eq j k)
  ]
