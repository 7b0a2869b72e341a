-- ===== src/Lights/Brightness.antt =====
-- `rgb_to_brightness` as a measure of light, and the buffer of `read_string`.
use android_device_xiaomi_la.Common.{ℕ, ◌+◌, ◌*◌, ◌^◌, ◌≤◌, ◌<◌, ◌≡◌, arith}
use android_device_xiaomi_la.Lights.Board.{LightState, rgb_to_brightness, red_of, green_of, blue_of}

-- A grey of level `v` has brightness `v`, whatever its alpha byte: the weights add up to 256.
brightness_grey :
    (alpha v : ℕ) (s : LightState)
    → v < 256
    → s.color ≡ alpha * 2 ^ 24 + v * 2 ^ 16 + v * 2 ^ 8 + v
    → rgb_to_brightness s ≡ v
unfolding rgb_to_brightness
brightness_grey alpha v s h e = omega arith

-- A colour with no channel darker is no darker.
brightness_mono :
    (s t : LightState)
    → red_of s.color ≤ red_of t.color
    → green_of s.color ≤ green_of t.color
    → blue_of s.color ≤ blue_of t.color
    → rgb_to_brightness s ≤ rgb_to_brightness t
unfolding rgb_to_brightness
brightness_mono s t r g b = omega arith
