-- ===== src/Graphic/Buffer.antt =====
-- shim/ui/GraphicBuffer.cpp and its header: construction, ownership, reallocation and locking.
use android_device_xiaomi_la.Common.{
  ℕ, ◌+◌, ◌*◌, ◌%◌, Bool, ◌&&◌, ◌||◌, not, List, ◌==◌, if◌then◌else◌, ltb_ℤ, ℤ, pos, signed32, word,
  Status, ok, bad_value, invalid_operation, is_ok,
}
use android_device_xiaomi_la.Graphic.Gralloc.{Gralloc, Rect}
use android_device_xiaomi_la.Graphic.Allocator.{System, alloc, free}
use android_device_xiaomi_la.Graphic.Mapper
use android_device_xiaomi_la.Graphic.Mapper.{Module, Effect, unregister_buffer}

-- ownNone, ownHandle and ownData
pub data Owner : Type 0 where
  own_none own_handle own_data : Owner

-- The dimensions are the bits of 32-bit fields; `wrapped` is mWrappedBuffer.
pub record GraphicBuffer : Type 0 where
  pub width : ℕ
  pub height : ℕ
  pub stride : ℕ
  pub format : ℕ
  pub usage : ℕ
  pub handle : ℕ
  pub owner : Owner
  pub init_check : Status
  pub wrapped : ℕ
  pub id : ℕ

-- getUniqueId, with getpid() and the counter nextId; the counter that is left wraps in 32 bits.
unfoldable pub get_unique_id : ℕ → ℕ → ℕ × ℕ
get_unique_id pid next_id = (pid % word * word + next_id % word, (next_id + 1) % word)

-- GraphicBuffer()
unfoldable pub blank : ℕ → GraphicBuffer
blank id = record {
  width = 0;
  height = 0;
  stride = 0;
  format = 0;
  usage = 0;
  handle = 0;
  owner = own_data;
  init_check = ok;
  wrapped = 0;
  id = id;
}

-- GraphicBuffer(w, h, format, usage, stride, handle, keepOwnership)
unfoldable pub of_handle : ℕ → ℕ → ℕ → ℕ → ℕ → ℕ → Bool → ℕ → GraphicBuffer
of_handle w h format usage stride handle keep id = record {
  width = w;
  height = h;
  stride = stride;
  format = format;
  usage = usage;
  handle = handle;
  owner = if keep then own_handle else own_none;
  init_check = ok;
  wrapped = 0;
  id = id;
}

-- GraphicBuffer(ANativeWindowBuffer* buffer, bool keepOwnership): the base fields of `buffer` are
-- those of the record, and its address comes with it.
unfoldable pub of_native : GraphicBuffer → ℕ → Bool → ℕ → GraphicBuffer
of_native buffer address keep id = record buffer {
  owner = if keep then own_handle else own_none;
  init_check = ok;
  wrapped = address;
  id = id;
}

-- The test with which the four lock functions begin.
abbrev pub outside_of : Rect → GraphicBuffer → Bool
outside_of rect b =
    ltb_ℤ rect.left (pos 0)
    || (ltb_ℤ (signed32 b.width) rect.right
        || (ltb_ℤ rect.top (pos 0) || ltb_ℤ (signed32 b.height) rect.bottom))

-- Rect(width, height)
abbrev pub lock_bounds : GraphicBuffer → Rect
lock_bounds b = record {
  left = pos 0;
  top = pos 0;
  right = signed32 b.width;
  bottom = signed32 b.height;
}

module _ (gralloc : Gralloc) where
  unfoldable pub init_size :
      ℕ → ℕ → ℕ → ℕ → GraphicBuffer → System gralloc → Status × GraphicBuffer × System gralloc
  init_size w h format usage b sys =
      let (err, handle, stride, sys') = alloc gralloc w h format usage b.handle sys in
      let b' = record b { handle = handle; stride = stride } in
      (
        err,
        (if is_ok err
            then record b' { width = w; height = h; format = format; usage = usage }
            else b'),
        sys',
      )

  -- GraphicBuffer(w, h, reqFormat, reqUsage)
  unfoldable pub of_size : ℕ → ℕ → ℕ → ℕ → ℕ → System gralloc → GraphicBuffer × System gralloc
  unfolding init_size blank
  of_size w h format usage id sys =
      let (err, b, sys') = init_size w h format usage (blank id) sys in
      (record b { init_check = err }, sys')

  unfoldable pub reallocate :
      ℕ → ℕ → ℕ → ℕ → GraphicBuffer → System gralloc → Status × GraphicBuffer × System gralloc
  reallocate w h format usage b sys = elim b.owner [
    | own_none ↦ (invalid_operation, b, sys)
    | own_handle ↦ (invalid_operation, b, sys)
    | own_data ↦
        let unchanged =
          not (b.handle == 0)
          && (w == b.width && (h == b.height && (format == b.format && usage == b.usage))) in
        let (_, freed) = free gralloc b.handle sys in
        if unchanged
        then (ok, b, sys)
        else if b.handle == 0
        then init_size w h format usage b sys
        else init_size w h format usage (record b { handle = 0 }) freed
  ]

  unfoldable pub free_handle : GraphicBuffer → System gralloc → GraphicBuffer × System gralloc
  free_handle b sys = elim b.owner [
    | own_none ↦ (record b { wrapped = 0 }, sys)
    | own_handle ↦
        let (_, w1) = unregister_buffer gralloc b.handle sys.world in
        (
          record b { wrapped = 0 },
          record sys { world = gralloc.delete b.handle (gralloc.close b.handle w1) },
        )
    | own_data ↦ let (_, sys') = free gralloc b.handle sys in (record b { wrapped = 0 }, sys')
  ]

  -- ~GraphicBuffer()
  unfoldable pub destroy : GraphicBuffer → System gralloc → System gralloc
  unfolding free_handle
  destroy b sys = if b.handle == 0 then sys else (free_handle b sys).1

module _ (m : Module) where
  unfoldable pub lock : ℕ → Rect → GraphicBuffer → List Effect → Status × List Effect
  lock usage rect b log =
      if outside_of rect b then (bad_value, log) else Mapper.lock m b.handle usage rect log

  unfoldable pub lock_ycbcr : ℕ → Rect → GraphicBuffer → List Effect → Status × List Effect
  lock_ycbcr usage rect b log =
      if outside_of rect b then (bad_value, log) else Mapper.lock_ycbcr m b.handle usage rect log

  unfoldable pub lock_async : ℕ → Rect → ℤ → GraphicBuffer → List Effect → Status × List Effect
  lock_async usage rect fence b log =
      if outside_of rect b
      then (bad_value, log)
      else Mapper.lock_async m b.handle usage rect fence log

  unfoldable pub lock_async_ycbcr :
      ℕ → Rect → ℤ → GraphicBuffer → List Effect → Status × List Effect
  lock_async_ycbcr usage rect fence b log =
      if outside_of rect b
      then (bad_value, log)
      else Mapper.lock_async_ycbcr m b.handle usage rect fence log

  -- The overloads that lock the whole buffer.
  unfoldable pub lock_all : ℕ → GraphicBuffer → List Effect → Status × List Effect
  unfolding lock
  lock_all usage b log = lock usage (lock_bounds b) b log

  unfoldable pub lock_ycbcr_all : ℕ → GraphicBuffer → List Effect → Status × List Effect
  unfolding lock_ycbcr
  lock_ycbcr_all usage b log = lock_ycbcr usage (lock_bounds b) b log

  unfoldable pub lock_async_all : ℕ → ℤ → GraphicBuffer → List Effect → Status × List Effect
  unfolding lock_async
  lock_async_all usage fence b log = lock_async usage (lock_bounds b) fence b log

  unfoldable pub lock_async_ycbcr_all : ℕ → ℤ → GraphicBuffer → List Effect → Status × List Effect
  unfolding lock_async_ycbcr
  lock_async_ycbcr_all usage fence b log = lock_async_ycbcr usage (lock_bounds b) fence b log

  unfoldable pub unlock : GraphicBuffer → List Effect → Status × List Effect
  unlock b log = Mapper.unlock m b.handle log

  unfoldable pub unlock_async : GraphicBuffer → List Effect → Status × ℤ × List Effect
  unlock_async b log = Mapper.unlock_async m b.handle log
