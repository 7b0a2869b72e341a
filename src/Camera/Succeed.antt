-- ===== src/Camera/Succeed.antt =====
-- The lines of updateImpl that write the entry succeed when there is room.
use android_device_xiaomi_la.Common.{
  ℕ, ◌+◌, ◌≤◌, ◌≡◌, ◌≢◌, inl, inr, refl, true, Option-cases, some, arith, ok,
}
use android_device_xiaomi_la.Camera.Library.{
  MetadataLib, IsAllocator, IsMeasured, TagType, byte, int32, float, int64, double, rational, Entry,
}
use android_device_xiaomi_la.Camera.Object.{CameraMetadata}
use android_device_xiaomi_la.Camera.Update.{same_type, write_entry}
use android_device_xiaomi_la.Camera.Maps.{IsMap, IsSpacious}

pub same_type_refl : (k : TagType) → same_type k k ≡ true
same_type_refl byte = refl
same_type_refl int32 = refl
same_type_refl float = refl
same_type_refl int64 = refl
same_type_refl double = refl
same_type_refl rational = refl

module _ (lib : MetadataLib) (mem : IsAllocator lib) (rooms : IsMeasured lib) (maps : IsMap lib)
    (space : IsSpacious lib mem maps) where
  open lib use {Store, allocate}
  open mem use {live}
  open maps use {value, datum, Held, find_ok, find_missing}
  open space use {add_fits, update_fits}

  pub write_entry_ok :
      (k : TagType) (tag a n : ℕ) (m : CameraMetadata) (s : Store)
      → m.buffer ≢ 0
      → live s m.buffer ≡ true
      → lib.tag_type tag ≡ some k
      → Held a n
      → lib.entry_count s m.buffer + 1 ≤ lib.entry_capacity s m.buffer
      → lib.data_count s m.buffer + lib.entry_data_size k n ≤ lib.data_capacity s m.buffer
      → (write_entry lib tag a n m s).0 ≡ ok
  unfolding write_entry
  write_entry_ok k tag a n m s nz own kind held h g =
      let e : Entry = record { index = 0; count = 0; bytes = 0 } in
      elim (Option-cases (value s m.buffer tag)) [
        | inl absent ↦ ground (
          arith,
          absent,
          find_ok s m.buffer tag e,
          find_missing s m.buffer tag e,
          add_fits m.buffer tag a n k s own kind held absent h g,
        )
        | inr (v, there) ↦ ground (
          arith,
          there,
          find_ok s m.buffer tag e,
          find_missing s m.buffer tag e,
          update_fits m.buffer tag a n k e s own kind held,
        )
      ]
