-- ===== src/Graphic/Life.antt =====
-- The life of a GraphicBuffer that owns its data: constructed with a size, reallocated, destroyed.
use android_device_xiaomi_la.Common.{
  ℕ, ◌≡◌, ◌==◌, ◌&&◌, ◌||◌, not, true, false, Bool, List, [], ◌∷◌, ok, is_ok,
}
use android_device_xiaomi_la.Graphic.Gralloc.{Gralloc}
use android_device_xiaomi_la.Graphic.Allocator.{System, alloc, free}
use android_device_xiaomi_la.Graphic.Accounting.{IsHandled}
use android_device_xiaomi_la.Graphic.Buffer.{GraphicBuffer, own_data, of_size, reallocate, destroy}

-- NULL is not a handle, a handle that is allocated can be freed, and an allocation that fails leaves
-- *handle as it was.
pub record IsOrderly (gralloc : Gralloc) (mem : IsHandled gralloc) : Type 0 where
  pub live_null : (s : gralloc.World) → mem.live s 0 ≡ false
  pub free_ok : (p : ℕ) (s : gralloc.World) → mem.live s p ≡ true → (gralloc.free p s).0 ≡ ok
  pub alloc_failed :
      (w h f u p : ℕ) (s : gralloc.World)
      → is_ok (gralloc.alloc w h f u p s).0 ≡ false
      → (gralloc.alloc w h f u p s).1 ≡ p

-- Width, height, format and usage.
pub record Request : Type 0 where
  pub width : ℕ
  pub height : ℕ
  pub format : ℕ
  pub usage : ℕ

module _ (gralloc : Gralloc) where
  unfoldable pub reallocates :
      List Request → GraphicBuffer → System gralloc → GraphicBuffer × System gralloc
  unfolding reallocate
  reallocates [] b sys = (b, sys)
  reallocates (r ∷ rs) b sys =
      let (_, b', sys') = reallocate gralloc r.width r.height r.format r.usage b sys in
      reallocates rs b' sys'

  -- Construction, reallocations and destruction.
  unfoldable pub live_through : Request → List Request → ℕ → System gralloc → System gralloc
  unfolding of_size reallocates destroy
  live_through r rs id sys =
      let (b, sys1) = of_size gralloc r.width r.height r.format r.usage id sys in
      let (b', sys2) = reallocates rs b sys1 in destroy gralloc b' sys2

module _ (gralloc : Gralloc) (mem : IsHandled gralloc) (orderly : IsOrderly gralloc mem) where
  open mem use {live, live-alloc, alloc_fresh, live-free}
  open orderly use {live_null, free_ok, alloc_failed}

  -- The buffer owns its data, and its handle is the only one that is allocated besides those of
  -- others, `f`.
  record IsOnly (f : ℕ → Bool) (b : GraphicBuffer) (sys : System gralloc) : Type 0 where
    owned : b.owner ≡ own_data
    apart : (not (b.handle == 0) && f b.handle) ≡ false
    held : (q : ℕ) → live sys.world q ≡ (f q || (not (b.handle == 0) && q == b.handle))
