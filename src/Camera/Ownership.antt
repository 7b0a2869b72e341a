-- ===== src/Camera/Ownership.antt =====
-- Who owns the blocks. Seen from outside an object, the memory holds every allocated block but the
-- object's own; each call of Calls is described by the blocks that cross that line.
use android_device_xiaomi_la.Common.{
  ℕ, ◌≡◌, ◌≢◌, ◌⊎◌, true, not, ◌&&◌, ◌||◌, arith, ◌==◌, if◌then◌else◌,
}
use android_device_xiaomi_la.Camera.Library.{MetadataLib, IsAllocator}
use android_device_xiaomi_la.Camera.Object.{
  CameraMetadata, assign, clear, release, acquire, get_and_lock, unlock, sort,
}
use android_device_xiaomi_la.Camera.Update.{erase}
use android_device_xiaomi_la.Camera.Calls.{
  Call, assigns, acquires, unlocks, appends, clears, releases, locks, sorts, updates, erases, step,
}
use android_device_xiaomi_la.Camera.Blocks.{IsOwner, outside, append_lem, update_lem}

-- The block that a call hands over to the object: `acquire` takes one unless the object is locked.
abbrev pub given : Call → CameraMetadata → ℕ
given (acquires p) m = if m.locked then 0 else p
given _ m = 0

-- The block that a call hands out: `release` gives its own unless the object is locked.
abbrev pub taken : Call → CameraMetadata → ℕ
taken releases m = if m.locked then 0 else m.buffer
taken _ m = 0

-- The block that a call loses: `append` and `update` drop their block when the larger one cannot
-- be allocated.
abbrev pub lost : Call → CameraMetadata → CameraMetadata → ℕ
lost (appends p) m m' = if m'.buffer == 0 then m.buffer else 0
lost (updates t d) m m' = if m'.buffer == 0 then m.buffer else 0
lost _ m m' = 0

module _ (lib : MetadataLib) (mem : IsAllocator lib) where
  open lib use {Store, allocate, clone, append as append_entries}
  open mem use {
    live, live_null, allocate_fresh, live-allocate, clone_fresh, live-clone, live-free, live-append,
    live-sort, live-add_entry, live-update_entry, live-delete_entry,
  }

  -- What a call is handed, if anything, is an allocated block that is not the object's own.
  abbrev pub IsForeign : ℕ → CameraMetadata → Store → Type 0
  IsForeign p m s = (p ≡ 0) ⊎ (outside lib mem m s p ≡ true)

  -- What the call hands over comes in from outside, and what it takes out or loses goes out.
  abbrev pub Crosses : Call → CameraMetadata → Store → ℕ → CameraMetadata × Store → Type 0
  Crosses c m s q (m', s') =
      IsOwner lib mem m' s'
      × (outside lib mem m' s' q ≡ (
          (outside lib mem m s q && not (q == given c m)) || (q == taken c m || q == lost c m m')))

  -- From an object that owns its block, every call leaves an object that owns its block, and
  -- another block is outside afterwards exactly if it was outside and was not handed over, or was
  -- handed out by `release`, or was the block of an object that `append` or `update` leaves without
  -- one. Condition: a block that is handed over is allocated and not the object's own.
  pub step-outside :
      (c : Call) (m : CameraMetadata) (s : Store) (q : ℕ)
      → q ≢ 0
      → IsOwner lib mem m s
      → IsForeign (given c m) m s
      → Crosses c m s q (step lib c (m, s))
  unfolding step assign acquire unlock clear release get_and_lock sort erase
  step-outside (assigns p) m s q nz own f =
      let r = (clone p s).0 in
      let s1 = (clone p s).1 in
      ground (
        arith,
        live_null s,
        clone_fresh p s,
        live-clone p s q,
        live-clone p s r,
        live-free m.buffer s1 q,
        live-free m.buffer s1 r,
      )
  step-outside (acquires p) m s q nz own f =
      ground (arith, live_null s, live-free m.buffer s q, live-free m.buffer s p)
  step-outside (unlocks p) m s q nz own f = ground (arith, live_null s)
  step-outside (appends p) m s q nz own f =
      ground (arith, live_null s, append_lem lib mem p m s q nz own)
  step-outside clears m s q nz own f = ground (arith, live_null s, live-free m.buffer s q)
  step-outside releases m s q nz own f = ground (arith, live_null s)
  step-outside locks m s q nz own f = ground (arith, live_null s)
  step-outside sorts m s q nz own f =
      ground (arith, live_null s, live-sort m.buffer s q, live-sort m.buffer s m.buffer)
  step-outside (updates t d) m s q nz own f =
      ground (arith, live_null s, update_lem lib mem t d m s q nz own)
  step-outside (erases t e) m s q nz own f =
      let i = (lib.find_entry s m.buffer t e).1.index in
      ground (
        arith,
        live_null s,
        live-delete_entry m.buffer i s q,
        live-delete_entry m.buffer i s m.buffer,
      )
