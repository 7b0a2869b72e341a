-- ===== src/Camera/Methods.antt =====
-- The methods of CameraMetadata that take another object or a parcel, and the destructor, next to the
-- calls of Calls. The other object is an argument; what it is left with is in Object.
use android_device_xiaomi_la.Common.{List, [], ◌∷◌, Bool, true, false, ℕ}
use android_device_xiaomi_la.Camera.Library.{MetadataLib}
use android_device_xiaomi_la.Camera.Object.{
  CameraMetadata, acquire_object, assign_object, destroy, swap,
}
use android_device_xiaomi_la.Camera.Update.{append_object}
use android_device_xiaomi_la.Camera.Parcel.{ParcelLib, read_from_parcel}
use android_device_xiaomi_la.Camera.Calls.{Call, opens, step}

pub data Method (P : Type 0) : Type 0 where
  calls : Call → Method P
  assigns_object acquires_object appends_object swaps : CameraMetadata → Method P
  reads : P → Method P
  destroys : Method P

module _ (lib : MetadataLib) (io : ParcelLib lib) where
  open lib use {Store}
  open io use {Parcel}

  unfoldable pub act : Method Parcel → CameraMetadata × Store → CameraMetadata × Store
  act (calls c) (m, s) = step lib c (m, s)
  act (assigns_object o) (m, s) = assign_object lib o m s
  act (acquires_object o) (m, s) = let (m', _, s') = acquire_object lib m o s in (m', s')
  act (appends_object o) (m, s) = let (_, m', s') = append_object lib o m s in (m', s')
  act (swaps o) (m, s) = ((swap lib m o).0, s)
  act (reads p) (m, s) = let (_, m', _, s') = read_from_parcel lib io p m s in (m', s')
  act destroys (m, s) = destroy lib m s

  unfoldable pub acts : List (Method Parcel) → CameraMetadata × Store → CameraMetadata × Store
  acts [] w = w
  acts (c ∷ cs) w = acts cs (act c w)

-- Whether the call ends the lock on the block: `unlock` with its address, or the destructor.
abbrev pub releases_lock : {P : Type 0} → Method P → ℕ → Bool
releases_lock (calls c) q = opens c q
releases_lock destroys q = true
releases_lock _ q = false
