-- ===== src/Graphic/Locking.antt =====
-- The lock functions of GraphicBuffer and the geometry of the buffer.
use android_device_xiaomi_la.Common.{
  ℕ, refl, pos, signed32, Status, bad_value, if_cases, if◌then◌else◌, ◌+◌, ◌≤◌, ◌<◌, ◌^◌, ◌≡◌, ℤ,
  pos_part, neg_part, false, List, arith,
}
use android_device_xiaomi_la.Graphic.Gralloc.{Rect}
use android_device_xiaomi_la.Graphic.Mapper
use android_device_xiaomi_la.Graphic.Mapper.{Module, Effect}
use android_device_xiaomi_la.Graphic.Buffer
use android_device_xiaomi_la.Graphic.Buffer.{GraphicBuffer, outside_of, lock_bounds}

infix 50 ◌≤ℤ◌
abbrev pub ◌≤ℤ◌ : ℤ → ℤ → Type 0
a ≤ℤ b = pos_part a + neg_part b ≤ pos_part b + neg_part a

-- The pixel in column x and row y of the rectangle.
abbrev pub IsIn : ℤ → ℤ → Rect → Type 0
IsIn x y r = (r.left ≤ℤ x) × (x ≤ℤ r.right) × (r.top ≤ℤ y) × (y ≤ℤ r.bottom)

-- The rectangle lies in the buffer, edges included.
abbrev pub IsWithin : Rect → GraphicBuffer → Type 0
IsWithin r b = IsIn r.left r.top (lock_bounds b) × IsIn r.right r.bottom (lock_bounds b)

-- The guard refuses no rectangle that lies in the buffer.
guard_complete :
    (r : Rect) (b : GraphicBuffer)
    → r.left ≤ℤ r.right
    → r.top ≤ℤ r.bottom
    → IsWithin r b
    → outside_of r b ≡ false
guard_complete r b h v p = ground arith

guard_sound :
    (r : Rect) (b : GraphicBuffer)
    → r.left ≤ℤ r.right
    → r.top ≤ℤ r.bottom
    → outside_of r b ≡ false
    → IsWithin r b
guard_sound r b h v g = ground arith

-- A rectangle whose left edge is beyond the buffer's right one, and its right edge at 0.
abbrev inverted : GraphicBuffer → Rect
inverted b = record {
  left = pos (pos_part (signed32 b.width) + 1);
  top = pos 0;
  right = pos 0;
  bottom = pos 0;
}

-- The guard compares each edge with one side only, so that it lets a rectangle through whose left
-- edge is to the right of the buffer.
inverted_passes :
    (b : GraphicBuffer) → b.width < 2 ^ 31 → b.height < 2 ^ 31 → outside_of (inverted b) b ≡ false
inverted_passes b w h = ground arith

module _ (m : Module) where
  -- A buffer below 2^31 in both directions can be locked whole: the guard lets the call through to
  -- the mapper, with the whole buffer as the rectangle.
  lock_all_lem :
      (usage : ℕ) (b : GraphicBuffer) (log : List Effect)
      → b.width < 2 ^ 31
      → b.height < 2 ^ 31
      → Buffer.lock_all m usage b log ≡ Mapper.lock m b.handle usage (lock_bounds b) log
  unfolding Buffer.lock_all
  lock_all_lem usage b log w h = ground arith

  -- What a lock function of GraphicBuffer does with the rectangle `r`, given what the mapper does for
  -- it and the state before.
  abbrev pub Guarded :
      Rect → GraphicBuffer → List Effect → Status × List Effect → Status × List Effect → Type 0
  Guarded r b log mapped out =
      (IsWithin r b → out ≡ mapped) × ((IsWithin r b → ⊥) → out ≡ (bad_value, log))

  Guarded-if :
      (r : Rect) (b : GraphicBuffer) (log : List Effect) (mapped : Status × List Effect)
      → r.left ≤ℤ r.right
      → r.top ≤ℤ r.bottom
      → Guarded r b log mapped (if outside_of r b then (bad_value, log) else mapped)
  Guarded-if r b log mapped h v =
      if_cases (λ out. Guarded r b log mapped out) (outside_of r b)
        (λ out. ((λ p. absurd (cc (out, guard_complete r b h v p))), (λ p. refl)))
        (λ through. ((λ p. refl), (λ p. absurd (p (guard_sound r b h v through)))))

  -- Each of the four lock functions of GraphicBuffer, with a rectangle that is not inverted, makes the
  -- mapper's call with that rectangle exactly if it lies in the buffer, edges included; else it
  -- returns BAD_VALUE, nothing is locked, and the fence, if any, is left.
  pub locks-Guarded :
      (usage : ℕ) (r : Rect) (fence : ℤ) (b : GraphicBuffer) (log : List Effect)
      → r.left ≤ℤ r.right
      → r.top ≤ℤ r.bottom
      → Guarded r b log (Mapper.lock m b.handle usage r log) (Buffer.lock m usage r b log)
        × Guarded r b log
            (Mapper.lock_ycbcr m b.handle usage r log)
            (Buffer.lock_ycbcr m usage r b log)
        × Guarded r b log
            (Mapper.lock_async m b.handle usage r fence log)
            (Buffer.lock_async m usage r fence b log)
        × Guarded r b log
            (Mapper.lock_async_ycbcr m b.handle usage r fence log)
            (Buffer.lock_async_ycbcr m usage r fence b log)
  unfolding Buffer.lock Buffer.lock_ycbcr Buffer.lock_async Buffer.lock_async_ycbcr
  locks-Guarded usage r fence b log h v = (
    Guarded-if r b log (Mapper.lock m b.handle usage r log) h v,
    Guarded-if r b log (Mapper.lock_ycbcr m b.handle usage r log) h v,
    Guarded-if r b log (Mapper.lock_async m b.handle usage r fence log) h v,
    Guarded-if r b log (Mapper.lock_async_ycbcr m b.handle usage r fence log) h v,
  )
