-- ===== src/Graphic/Gralloc.antt =====
-- What the classes of shim/ui call: the gralloc module and device, native_handle of libcutils, and
-- bytesPerPixel. `World` is the state behind them. A handle is its address, 0 is NULL.
use android_device_xiaomi_la.Common.{ℕ, ℤ, List, Status}

-- Rect: left, top, right, bottom.
pub record Rect : Type 0 where
  pub left : ℤ
  pub top : ℤ
  pub right : ℤ
  pub bottom : ℤ

pub record Gralloc : Type 1 where
  pub World : Type 0
  -- mAllocDev->alloc(w, h, format, usage, &handle, &stride), with what `handle` held before:
  -- status, handle and stride.
  pub alloc : ℕ → ℕ → ℕ → ℕ → ℕ → World → Status × ℕ × ℕ × World
  pub free : ℕ → World → Status × World
  -- GRALLOC_USAGE_ALLOC_MASK
  pub alloc_mask : ℕ
  pub bytes_per_pixel : ℕ → ℕ
  pub register : ℕ → World → Status × World
  pub unregister : ℕ → World → Status × World
  -- native_handle_create(numFds, numInts), _close and _delete
  pub create : ℕ → ℕ → World → ℕ × World
  pub close : ℕ → World → World
  pub delete : ℕ → World → World
  -- the file descriptors and the ints of handle->data; their numbers are numFds and numInts
  pub fds : World → ℕ → List ℕ
  pub ints : World → ℕ → List ℕ
  -- the two copies into h->data
  pub fill : ℕ → List ℕ → List ℕ → World → World
