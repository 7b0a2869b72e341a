-- ===== src/Color/Formats.antt =====
-- Where the samples of a picture lie in the two formats.
use android_device_xiaomi_la.Common.{ℕ, ◌+◌, ◌-◌, ◌*◌, ◌/◌, ◌<◌, ◌≡◌, arith, ap}
use android_device_xiaomi_la.Color.Convert.{ARect}

-- The offsets of the samples of a pixel, or of a square of four pixels, in I420: the planes of Y, U
-- and V follow each other.
abbrev pub i420_y : ℕ → ℕ → ℕ → ℕ
i420_y width x y = width * y + x

abbrev pub i420_u : ℕ → ℕ → ℕ → ℕ → ℕ
i420_u width height x y = width * height + (width / 2 * y + x)

abbrev pub i420_v : ℕ → ℕ → ℕ → ℕ → ℕ
i420_v width height x y = width * height + width / 2 * (height / 2) + (width / 2 * y + x)

-- In NV12 the samples of U and V alternate after the plane of Y.
abbrev pub nv12_y : ℕ → ℕ → ℕ → ℕ
nv12_y width x y = width * y + x

abbrev pub nv12_u : ℕ → ℕ → ℕ → ℕ → ℕ
nv12_u width height x y = width * height + (width * y + 2 * x)

abbrev pub nv12_v : ℕ → ℕ → ℕ → ℕ → ℕ
nv12_v width height x y = width * height + (width * y + (2 * x + 1))

-- The rectangle of `2 * a` columns from `left` on and `2 * b` rows from `2 * t` on.
abbrev pub rect : ℕ → ℕ → ℕ → ℕ → ARect
rect left t a b = record {
  left = left;
  top = 2 * t;
  right = left + 2 * a - 1;
  bottom = 2 * t + 2 * b - 1;
}

pub half : (n : ℕ) → 2 * n / 2 ≡ n
half n = omega arith

-- A sample of a row lies before the end of the rows.
pub before_end : (w h x y : ℕ) → x < w → y < h → w * y + x < w * h
before_end w h x y hx hy =
    let e : h ≡ y + 1 + (h - (y + 1)) = omega arith in omega (arith, ap (λ (z : ℕ). w * z) e)
