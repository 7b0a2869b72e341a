-- ===== src/Camera/Lock.antt =====
-- The lock: while getAndLock holds, no call of Calls changes the object or the memory.
use android_device_xiaomi_la.Common.{
  ℕ, ◌≡◌, refl, true, false, List, [], ◌∷◌, arith, invalid_operation,
}
use android_device_xiaomi_la.Camera.Library.{MetadataLib}
use android_device_xiaomi_la.Camera.Object.{
  CameraMetadata, assign, clear, release, acquire, get_and_lock, unlock, sort, swap,
}
use android_device_xiaomi_la.Camera.Update.{
  Payload, int32s, bytes, floats, int64s, doubles, rationals, string, append, update, update_as,
  erase,
}
use android_device_xiaomi_la.Camera.Calls.{
  Call, assigns, acquires, unlocks, appends, clears, releases, locks, sorts, updates, erases, opens,
  step, run,
}

-- No call of the list is `unlock` with the address `p`.
abbrev pub NoneOpens : List Call → ℕ → Type 0
NoneOpens [] p = Unit
NoneOpens (c ∷ cs) p = (opens c p ≡ false) × NoneOpens cs p

module _ (lib : MetadataLib) where
  open lib use {Store}

  update-locked :
      (tag : ℕ) (d : Payload) (m : CameraMetadata) (s : Store)
      → m.locked ≡ true
      → update lib tag d m s ≡ (invalid_operation, m, s)
  unfolding update update_as
  update-locked tag (int32s a n) m s h = ground arith
  update-locked tag (bytes a n) m s h = ground arith
  update-locked tag (floats a n) m s h = ground arith
  update-locked tag (int64s a n) m s h = ground arith
  update-locked tag (doubles a n) m s h = ground arith
  update-locked tag (rationals a n) m s h = ground arith
  update-locked tag (string a n) m s h = ground arith

  pub step-locked :
      (c : Call) (m : CameraMetadata) (s : Store)
      → m.locked ≡ true
      → opens c m.buffer ≡ false
      → step lib c (m, s) ≡ (m, s)
  unfolding step assign acquire unlock append clear release get_and_lock sort erase
  step-locked (assigns p) m s h o = ground arith
  step-locked (acquires p) m s h o = ground arith
  step-locked (unlocks p) m s h o = ground arith
  step-locked (appends p) m s h o = ground arith
  step-locked clears m s h o = ground arith
  step-locked releases m s h o = ground arith
  step-locked locks m s h o = ground arith
  step-locked sorts m s h o = ground arith
  step-locked (updates tag d) m s h o = ground (arith, update-locked tag d m s h)
  step-locked (erases tag e) m s h o = ground arith

  -- After getAndLock, whatever calls of Calls are made short of unlock with the address that it
  -- returned, the object still holds that address, is still locked, and the memory is as it was.
  run-get_and_lock :
      (cs : List Call) (m : CameraMetadata) (s : Store)
      → NoneOpens cs (get_and_lock lib m).0
      → run lib cs ((get_and_lock lib m).1, s)
        ≡ (record { buffer = (get_and_lock lib m).0; locked = true }, s)
  unfolding run get_and_lock
  run-get_and_lock [] m s h = refl
  run-get_and_lock (c ∷ cs) m s h =
      rw (step-locked c (record m { locked = true }) s refl h.0) (run-get_and_lock cs m s h.1)

  -- Two swaps in a row give back both objects, locked or not.
  swap-swap :
      (m other : CameraMetadata)
      → let (m', other') = swap lib m other in swap lib m' other' ≡ (m, other)
  unfolding swap
  swap-swap m other = ground arith
