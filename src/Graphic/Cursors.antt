-- ===== src/Graphic/Cursors.antt =====
-- The pointers and the reads of flatten and unflatten.
use android_device_xiaomi_la.Common.{
  ℕ, ◌+◌, ◌*◌, ◌/◌, ◌≤◌, ◌<◌, ◌≡◌, ◌↔◌, List, none, arith, length, get_or, ok,
}
use android_device_xiaomi_la.Graphic.Gralloc.{Gralloc}
use android_device_xiaomi_la.Graphic.Allocator.{System}
use android_device_xiaomi_la.Graphic.Buffer.{GraphicBuffer}
use android_device_xiaomi_la.Graphic.Flatten.{
  magic, get_flattened_size, get_fd_count, flatten, unflatten, rebuild,
}

module _ (gralloc : Gralloc) where
  open gralloc use {World}

  -- With enough bytes and descriptors flatten succeeds; then its pointer moves four times as many
  -- bytes as the size falls by, and the descriptors' pointer as far as their count falls by.
  flatten_overshoots :
      (b : GraphicBuffer) (w : World) (size count : ℕ)
      → get_flattened_size gralloc b w ≤ size
      → get_fd_count gralloc b w ≤ count
      → let (err, _, _, cur) = flatten gralloc b w size count in
        (err ≡ ok)
        × (cur.advance * 4 + 4 * cur.size ≡ 4 * size)
        × (cur.fd_advance + cur.count ≡ count)
  unfolding flatten
  flatten_overshoots b w size count hs hc = ground arith

  -- With a buffer of `size` bytes and `count` descriptors, unflatten reads beyond one of them exactly
  -- if the size is at least 32, which passes its check, and below 40, and the first word is the magic
  -- number: its other checks keep all that it copies in bounds.
  pub unflatten_reads_beyond :
      (buf fds : List ℕ) (size count : ℕ) (b : GraphicBuffer) (sys : System gralloc)
      → length buf ≡ size / 4
      → length fds ≡ count
      → (unflatten gralloc buf size fds count b sys ≡ none)
        ↔ ((32 ≤ size) × (size < 40) × (get_or buf 0 0 ≡ magic))
  unfolding unflatten rebuild
  unflatten_reads_beyond buf fds size count b sys h k =
      (λ e. (ground arith, ground arith, ground arith), λ p. ground arith)
