-- ===== src/Camera/Locked.antt =====
-- The lock against every method of the class, those with another object or a parcel included.
use android_device_xiaomi_la.Common.{ℕ, ◌≡◌, refl, true, false, List, [], ◌∷◌, arith}
use android_device_xiaomi_la.Camera.Library.{MetadataLib}
use android_device_xiaomi_la.Camera.Object.{
  CameraMetadata, assign, assign_object, acquire_object, get_and_lock, swap,
}
use android_device_xiaomi_la.Camera.Update.{append, append_object}
use android_device_xiaomi_la.Camera.Parcel.{ParcelLib, read_from_parcel}
use android_device_xiaomi_la.Camera.Lock.{step-locked}
use android_device_xiaomi_la.Camera.Methods.{
  Method, calls, assigns_object, acquires_object, appends_object, swaps, reads, destroys,
  releases_lock, act, acts,
}

-- No call of the list is `unlock` with the address `p`, or the destructor.
abbrev pub NoneReleases : {P : Type 0} → List (Method P) → ℕ → Type 0
NoneReleases [] p = Unit {0}
NoneReleases (c ∷ cs) p = (releases_lock c p ≡ false) × NoneReleases cs p

module _ (lib : MetadataLib) (io : ParcelLib lib) where
  open lib use {Store}
  open io use {Parcel}

  act-locked :
      (c : Method Parcel) (m : CameraMetadata) (s : Store)
      → m.locked ≡ true
      → releases_lock c m.buffer ≡ false
      → act lib io c (m, s) ≡ (m, s)
  unfolding act assign_object assign acquire_object append_object append swap read_from_parcel
  act-locked (calls c) m s h o = step-locked lib c m s h o
  act-locked (assigns_object other) m s h o = ground arith
  act-locked (acquires_object other) m s h o = ground arith
  act-locked (appends_object other) m s h o = ground arith
  act-locked (swaps other) m s h o = ground arith
  act-locked (reads p) m s h o = ground arith
  act-locked destroys m s h o = ground arith

  -- After getAndLock, whatever methods are called, those with another object and readFromParcel
  -- included, short of unlock with the address that it returned and of the destructor, the object
  -- still holds that address, is still locked, and the memory is as it was.
  pub acts-get_and_lock :
      (cs : List (Method Parcel)) (m : CameraMetadata) (s : Store)
      → NoneReleases cs (get_and_lock lib m).0
      → acts lib io cs ((get_and_lock lib m).1, s)
        ≡ (record { buffer = (get_and_lock lib m).0; locked = true }, s)
  unfolding acts get_and_lock
  acts-get_and_lock [] m s h = refl
  acts-get_and_lock (c ∷ cs) m s h =
      rw (act-locked c (record m { locked = true }) s refl h.0) (acts-get_and_lock cs m s h.1)
