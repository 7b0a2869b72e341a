-- ===== src/Graphic/Mapper.antt =====
-- shim/ui/GraphicBufferMapper.cpp: calls of the gralloc module, with fences for modules that do not
-- take them. What a call does outside is recorded as effects, the last one first.
use android_device_xiaomi_la.Common.{
  ℕ, ℤ, pos, negsuc, Bool, true, false, ◌&&◌, List, ◌∷◌, if◌then◌else◌, Status, bad_value,
}
use android_device_xiaomi_la.Graphic.Gralloc.{Gralloc, Rect}

-- Calls of the module (a lock passes the left and top edge, width and height of the rectangle),
-- and sync_wait and close of a fence.
pub data Effect : Type 0 where
  locked locked_ycbcr : ℕ → ℕ → Rect → Effect
  locked_async locked_async_ycbcr : ℕ → ℕ → Rect → ℤ → Effect
  unlocked : ℕ → Effect
  unlocked_async : ℕ → Effect
  waited closed : ℤ → Effect

-- The module that the mapper opened: whether its version is at least 0.3, which optional entries it
-- has, and how it answers, given what was done before.
pub record Module : Type 0 where
  pub async : Bool
  pub has_lock_ycbcr : Bool
  pub has_lock_async_ycbcr : Bool
  pub answer : List Effect → Status
  -- the fence that unlockAsync hands out
  pub out_fence : List Effect → ℤ

-- fenceFd >= 0
abbrev pub is_fence : ℤ → Bool
is_fence (pos n) = true
is_fence (negsuc n) = false

-- registerBuffer and unregisterBuffer
abbrev pub register_buffer : (gralloc : Gralloc) → ℕ → gralloc.World → Status × gralloc.World
register_buffer gralloc handle w = gralloc.register handle w

abbrev pub unregister_buffer : (gralloc : Gralloc) → ℕ → gralloc.World → Status × gralloc.World
unregister_buffer gralloc handle w = gralloc.unregister handle w

module _ (m : Module) where
  call : Effect → List Effect → Status × List Effect
  call e log = (m.answer (e ∷ log), e ∷ log)

  -- The lines `if (fenceFd >= 0) { sync_wait(fenceFd, -1); close(fenceFd); }`
  wait_and_close : ℤ → List Effect → List Effect
  wait_and_close fence log = if is_fence fence then closed fence ∷ waited fence ∷ log else log

  unfoldable pub lock : ℕ → ℕ → Rect → List Effect → Status × List Effect
  unfolding call
  lock handle usage bounds log = call (locked handle usage bounds) log

  unfoldable pub lock_ycbcr : ℕ → ℕ → Rect → List Effect → Status × List Effect
  unfolding call
  lock_ycbcr handle usage bounds log =
      if m.has_lock_ycbcr then call (locked_ycbcr handle usage bounds) log else (bad_value, log)

  unfoldable pub unlock : ℕ → List Effect → Status × List Effect
  unfolding call
  unlock handle log = call (unlocked handle) log

  unfoldable pub lock_async : ℕ → ℕ → Rect → ℤ → List Effect → Status × List Effect
  unfolding call wait_and_close
  lock_async handle usage bounds fence log =
      if m.async
      then call (locked_async handle usage bounds fence) log
      else call (locked handle usage bounds) (wait_and_close fence log)

  unfoldable pub lock_async_ycbcr : ℕ → ℕ → Rect → ℤ → List Effect → Status × List Effect
  unfolding call wait_and_close
  lock_async_ycbcr handle usage bounds fence log =
      if m.async && m.has_lock_async_ycbcr
      then call (locked_async_ycbcr handle usage bounds fence) log
      else if m.has_lock_ycbcr
      then call (locked_ycbcr handle usage bounds) (wait_and_close fence log)
      else (bad_value, (if is_fence fence then closed fence ∷ log else log))

  -- The status, *fenceFd and the effects.
  unfoldable pub unlock_async : ℕ → List Effect → Status × ℤ × List Effect
  unfolding call
  unlock_async handle log =
      if m.async
      then (
        m.answer (unlocked_async handle ∷ log),
        m.out_fence (unlocked_async handle ∷ log),
        unlocked_async handle ∷ log,
      )
      else (m.answer (unlocked handle ∷ log), negsuc 0, unlocked handle ∷ log)
