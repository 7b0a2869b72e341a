-- ===== src/Graphic/Lifetime.antt =====
-- What construction, reallocation and destruction of a GraphicBuffer do to the allocations.
use android_device_xiaomi_la.Common.{
  ℕ, ◌<◌, ◌≡◌, refl, arith, ◌==◌, ◌&&◌, not, word, ok, Bool-cases, inl, inr,
}
use android_device_xiaomi_la.Graphic.Gralloc.{Gralloc}
use android_device_xiaomi_la.Graphic.Allocator.{System, free}
use android_device_xiaomi_la.Graphic.Accounting.{
  IsHandled, IsTracked, alloc-IsTracked, free-IsTracked,
}
use android_device_xiaomi_la.Graphic.Buffer.{
  GraphicBuffer, Owner, own_none, own_handle, own_data, get_unique_id, init_size, reallocate,
}

-- Two ids are equal only if both the process and the counter are: ids differ between processes,
-- and within one until the counter has gone round.
get_unique_id_injective :
    (p q i j : ℕ)
    → p < word
    → q < word
    → i < word
    → j < word
    → (get_unique_id p i).0 ≡ (get_unique_id q j).0
    → (p ≡ q) × (i ≡ j)
unfolding get_unique_id
get_unique_id_injective p q i j hp hq hi hj e = (omega arith, omega arith)

module _ (gralloc : Gralloc) (mem : IsHandled gralloc) where
  pub init_size-IsTracked :
      (w h f u : ℕ) (b : GraphicBuffer) (sys : System gralloc)
      → IsTracked gralloc mem sys
      → IsTracked gralloc mem (init_size gralloc w h f u b sys).2
  unfolding init_size
  init_size-IsTracked w h f u b sys t = alloc-IsTracked gralloc mem w h f u b.handle sys t

  reallocate_lem :
      (o : Owner) (w h f u : ℕ) (b : GraphicBuffer) (sys : System gralloc)
      → b.owner ≡ o
      → IsTracked gralloc mem sys
      → IsTracked gralloc mem (reallocate gralloc w h f u b sys).2
  unfolding reallocate
  reallocate_lem own_none w h f u b sys e t = rw (e, reallocate) t
  reallocate_lem own_handle w h f u b sys e t = rw (e, reallocate) t
  reallocate_lem own_data w h f u b sys e t =
      let same =
        not (b.handle == 0)
        && (w == b.width && (h == b.height && (f == b.format && u == b.usage))) in
      let freed = (free gralloc b.handle sys).1 in
      rw (e, reallocate)
        (elim (Bool-cases same) [
          | inl y ↦ rw y t
          | inr n ↦ rw n (elim (Bool-cases (b.handle == 0)) [
            | inl z ↦ rw z (init_size-IsTracked w h f u b sys t)
            | inr z ↦ rw z (
                init_size-IsTracked w h f u (record b { handle = 0 }) freed
                  (free-IsTracked gralloc mem b.handle sys t))
          ])
        ])

  -- reallocate keeps the list of allocations in step with gralloc, whatever the buffer owns and
  -- whichever of its calls fail.
  pub reallocate-IsTracked :
      (w h f u : ℕ) (b : GraphicBuffer) (sys : System gralloc)
      → IsTracked gralloc mem sys
      → IsTracked gralloc mem (reallocate gralloc w h f u b sys).2
  reallocate-IsTracked w h f u b sys t = reallocate_lem b.owner w h f u b sys refl t

module _ (gralloc : Gralloc) where
  -- Only a buffer that owns its data can be reallocated; one that was has the geometry, format and
  -- usage that were asked for, and still owns its data.
  reallocate_accepted :
      (w h f u : ℕ) (b : GraphicBuffer) (sys : System gralloc)
      → (reallocate gralloc w h f u b sys).0 ≡ ok
      → let b' = (reallocate gralloc w h f u b sys).1 in
        (b.owner ≡ own_data)
        × (b'.owner ≡ own_data)
        × (b'.width ≡ w)
        × (b'.height ≡ h)
        × (b'.format ≡ f)
        × (b'.usage ≡ u)
  unfolding reallocate init_size
  reallocate_accepted w h f u b sys done =
      (ground arith, ground arith, ground arith, ground arith, ground arith, ground arith)
