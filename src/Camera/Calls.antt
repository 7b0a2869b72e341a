-- ===== src/Camera/Calls.antt =====
-- The calls that a client makes on one CameraMetadata object with no other object or parcel, as data,
-- and what each does to the object and the memory.
use android_device_xiaomi_la.Common.{ℕ, List, [], ◌∷◌, Bool, false, ◌==◌}
use android_device_xiaomi_la.Camera.Library.{MetadataLib, Entry}
use android_device_xiaomi_la.Camera.Object.{
  CameraMetadata, assign, clear, release, acquire, get_and_lock, unlock, sort,
}
use android_device_xiaomi_la.Camera.Update.{Payload, append, update, erase}

pub data Call : Type 0 where
  assigns acquires unlocks appends : ℕ → Call
  clears releases locks sorts : Call
  updates : ℕ → Payload → Call
  erases : ℕ → Entry → Call

-- Whether the call is `unlock` with the address of the object's own block.
abbrev pub opens : Call → ℕ → Bool
opens (unlocks p) q = p == q
opens _ q = false

module _ (lib : MetadataLib) where
  open lib use {Store}

  unfoldable pub step : Call → CameraMetadata × Store → CameraMetadata × Store
  step (assigns p) (m, s) = assign lib p m s
  step (acquires p) (m, s) = acquire lib p m s
  step (unlocks p) (m, s) = ((unlock lib p m).1, s)
  step (appends p) (m, s) = let (_, m', s') = append lib p m s in (m', s')
  step clears (m, s) = clear lib m s
  step releases (m, s) = ((release lib m).1, s)
  step locks (m, s) = ((get_and_lock lib m).1, s)
  step sorts (m, s) = let (_, m', s') = sort lib m s in (m', s')
  step (updates tag d) (m, s) = let (_, m', s') = update lib tag d m s in (m', s')
  step (erases tag e) (m, s) = let (_, m', s') = erase lib tag m s e in (m', s')

  unfoldable pub run : List Call → CameraMetadata × Store → CameraMetadata × Store
  run [] w = w
  run (c ∷ cs) w = run cs (step c w)
