-- ===== src/Camera/Custody.antt =====
-- Who owns the blocks, through every method of the class, those with another object or a parcel and
-- the destructor included.
use android_device_xiaomi_la.Common.{ℕ, ◌≡◌, not, ◌&&◌, ◌||◌, ◌==◌, if◌then◌else◌}
use android_device_xiaomi_la.Camera.Library.{MetadataLib, IsAllocator}
use android_device_xiaomi_la.Camera.Object.{CameraMetadata}
use android_device_xiaomi_la.Camera.Parcel.{ParcelLib, IsCopier}
use android_device_xiaomi_la.Camera.Blocks.{IsOwner, outside}
use android_device_xiaomi_la.Camera.Ownership.{given, taken, lost}
use android_device_xiaomi_la.Camera.Methods.{Method, calls, acquires_object, appends_object, swaps}

-- The block that a call hands over to the object, the one that it hands out, and the one that is
-- lost: with another object, `acquire` takes its block, and `swap` exchanges the two, unless one of
-- the objects is locked.
abbrev pub gets : {P : Type 0} → Method P → CameraMetadata → ℕ
gets (calls c) m = given c m
gets (acquires_object o) m = if m.locked || o.locked then 0 else o.buffer
gets (swaps o) m = if m.locked || o.locked then 0 else o.buffer
gets _ m = 0

abbrev pub gives : {P : Type 0} → Method P → CameraMetadata → ℕ
gives (calls c) m = taken c m
gives (swaps o) m = if m.locked || o.locked then 0 else m.buffer
gives _ m = 0

abbrev pub loses : {P : Type 0} → Method P → CameraMetadata → CameraMetadata → ℕ
loses (calls c) m m' = lost c m m'
loses (appends_object o) m m' = if m'.buffer == 0 then m.buffer else 0
loses _ m m' = 0

module _ (lib : MetadataLib) (io : ParcelLib lib) (mem : IsAllocator lib)
    (copies : IsCopier lib io mem) where
  open lib use {Store}
  open io use {Parcel}
  open mem use {live_null, live-free}

  -- What the call hands over comes in from outside, and what it hands out or loses goes out.
  pub record Passes (c : Method Parcel) (m : CameraMetadata) (s : Store) (q : ℕ)
      (after : CameraMetadata × Store) : Type 0 where
    pub owner : IsOwner lib mem after.0 after.1
    pub crosses : outside lib mem after.0 after.1 q ≡ (
        (outside lib mem m s q && not (q == gets c m))
        || (q == gives c m || q == loses c m after.0))
