-- ===== src/Graphic/Fences.antt =====
-- What the mapper's locks with a fence do with it.
use android_device_xiaomi_la.Common.{
  ℕ, ◌+◌, ◌≡◌, ℤ, pos, negsuc, Bool, true, false, not, ◌&&◌, ◌||◌, List, [], ◌∷◌, arith, ◌==◌,
  if◌then◌else◌, Bool-cases, inl, inr,
}
use android_device_xiaomi_la.Graphic.Gralloc.{Rect}
use android_device_xiaomi_la.Graphic.Mapper.{
  Module, Effect, locked, locked_ycbcr, locked_async, locked_async_ycbcr, waited, closed,
  lock_async, lock_async_ycbcr,
}
use android_device_xiaomi_la.Graphic.Buffer
use android_device_xiaomi_la.Graphic.Buffer.{GraphicBuffer, outside_of}

-- Whether the argument is the fence with the number `q`.
abbrev pub names : ℕ → ℤ → Bool
names q (pos f) = q == f
names q (negsuc f) = false

abbrev pub one : Bool → ℕ
one b = if b then 1 else 0

-- How often the effects use up the fence `q`: by closing it, or by handing it to the module.
abbrev pub consumed : ℕ → List Effect → ℕ
consumed q [] = 0
consumed q (closed f ∷ es) = consumed q es + one (names q f)
consumed q (locked_async h u r f ∷ es) = consumed q es + one (names q f)
consumed q (locked_async_ycbcr h u r f ∷ es) = consumed q es + one (names q f)
consumed q (_ ∷ es) = consumed q es

-- The effects before the fence was last used up.
abbrev pub uses : ℕ → Effect → Bool
uses q (closed f) = names q f
uses q (locked_async h u r f) = names q f
uses q (locked_async_ycbcr h u r f) = names q f
uses q _ = false

abbrev pub before_use : ℕ → List Effect → List Effect
before_use q [] = []
before_use q (e ∷ es) = if uses q e then es else before_use q es

-- How often they wait for it.
abbrev pub waits : ℕ → List Effect → ℕ
waits q [] = 0
waits q (waited f ∷ es) = waits q es + one (names q f)
waits q (_ ∷ es) = waits q es

-- How often a negative number, which stands for no fence, is waited for or closed.
abbrev pub strays : List Effect → ℕ
strays [] = 0
strays (waited (negsuc f) ∷ es) = strays es + 1
strays (closed (negsuc f) ∷ es) = strays es + 1
strays (_ ∷ es) = strays es

abbrev pub is_lock : Effect → Bool
is_lock (locked h u r) = true
is_lock (locked_ycbcr h u r) = true
is_lock (locked_async h u r f) = true
is_lock (locked_async_ycbcr h u r f) = true
is_lock _ = false

-- The effects before the last lock.
abbrev pub before_lock : List Effect → List Effect
before_lock [] = []
before_lock (e ∷ es) = if is_lock e then es else before_lock es

-- The call uses the fence up once and no other; before the module locks, if it does, it waits for
-- the fence so many times, `patience`, and for no other, and afterwards not again, nor after the fence
-- was used up; negative numbers are left alone.
pub record Handles (q : ℕ) (fence : ℤ) (locks : Bool) (patience : ℕ) (log log' : List Effect)
    : Type 0 where
  pub used : consumed q log' ≡ consumed q log + one (names q fence)
  pub waited_before :
      waits q (if locks then before_lock log' else log')
      ≡ waits q log + (if names q fence then patience else 0)
  pub waited_after : waits q log' ≡ waits q (if locks then before_lock log' else log')
  pub in_order : waits q log' ≡ waits q (if names q fence then before_use q log' else log')
  pub left_alone : strays log' ≡ strays log

module _ (m : Module) where
  -- The mapper's two locks with a fence use it up exactly once and no other: they close it, or hand
  -- it to a module that takes fences. Before a module that does not take them locks the buffer, the
  -- fence is waited for once, while it is not yet used up; before one that does, and where the module
  -- cannot lock with ycbcr, it is not waited for. A negative number, which stands for no fence, is
  -- neither waited for nor closed.
  pub lock_async-Handles :
      (q handle usage : ℕ) (bounds : Rect) (fence : ℤ) (log : List Effect)
      → let takes = m.async && m.has_lock_async_ycbcr in
        Handles q fence true (one (not m.async)) log (lock_async m handle usage bounds fence log).1
        × Handles q fence
            (takes || m.has_lock_ycbcr)
            (one (not takes && m.has_lock_ycbcr))
            log
            (lock_async_ycbcr m handle usage bounds fence log).1
  unfolding lock_async lock_async_ycbcr
  lock_async-Handles q handle usage bounds (pos f) log = (
    record {
      used = ground arith;
      waited_before = ground arith;
      waited_after = ground arith;
      in_order = ground arith;
      left_alone = ground arith;
    },
    record {
      used = ground arith;
      waited_before = ground arith;
      waited_after = ground arith;
      in_order = ground arith;
      left_alone = ground arith;
    },
  )
  lock_async-Handles q handle usage bounds (negsuc f) log = (
    record {
      used = ground arith;
      waited_before = ground arith;
      waited_after = ground arith;
      in_order = ground arith;
      left_alone = ground arith;
    },
    record {
      used = ground arith;
      waited_before = ground arith;
      waited_after = ground arith;
      in_order = ground arith;
      left_alone = ground arith;
    },
  )

  -- GraphicBuffer's locks with a fence use it up once if they accept the rectangle, and not at all if
  -- they refuse it.
  buffer_lock_consumed :
      (q usage : ℕ) (rect : Rect) (fence : ℤ) (b : GraphicBuffer) (log : List Effect)
      → let used : ℕ = if outside_of rect b then 0 else one (names q fence) in
        (consumed q (Buffer.lock_async m usage rect fence b log).1 ≡ consumed q log + used)
        × (consumed q (Buffer.lock_async_ycbcr m usage rect fence b log).1 ≡ consumed q log + used)
  unfolding Buffer.lock_async Buffer.lock_async_ycbcr
  buffer_lock_consumed q usage rect fence b log =
      let c = lock_async-Handles q b.handle usage rect fence log in
      elim (Bool-cases (outside_of rect b)) [
        | inl y ↦ rw y (omega arith, omega arith)
        | inr n ↦ rw n (c.0.used, c.1.used)
      ]
