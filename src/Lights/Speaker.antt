-- ===== src/Lights/Speaker.antt =====
-- liblight/lights.c: the notification LED, which `set_speaker_light_locked` drives and the three
-- light states share.
use android_device_xiaomi_la.Common.{
  ℕ, ◌*◌, ◌/◌, Bool, true, false, not, ◌&&◌, Option, none, some, ltb, ◌==◌, if◌then◌else◌, ℤ, pos,
  negsuc, is_zero, is_positive, ◌+ℤ◌,
}
use android_device_xiaomi_la.Lights.Board.{
  LightState, File, red_led, green_led, blue_led, red_blink, green_blink, blue_blink, Board, Kernel,
  write_int, red_of, green_of, blue_of,
}

-- The mode and the colour after the tests on the two durations; LIGHT_FLASH_NONE is 0. The sum of
-- the durations is taken not to overflow.
unfoldable pub effective : LightState → ℤ × ℕ
effective state =
    let mode =
      if is_zero (state.flash_on_ms +ℤ state.flash_off_ms) then pos 0 else state.flash_mode in
    if is_zero mode
    then (mode, state.color)
    else if is_positive state.flash_on_ms && is_zero state.flash_off_ms
    then (pos 0, state.color)
    else if is_zero state.flash_on_ms
    then (pos 0, 0)
    else (mode, state.color)

-- `(red > 127) ? 255 : 0`
abbrev pub rounded : ℕ → ℕ
rounded c = if ltb 127 c then 255 else 0

-- `(int)((float)red / 255.0f * 48.0f)`: over a byte the float expression is the truncated
-- quotient, since 48 c / 255 is 0, 16, 32 or 48 or at least 1/85 away from any integer.
abbrev pub scaled : ℕ → ℕ
scaled c = c * 48 / 255

-- The value of a comparison, as an int.
abbrev pub flag : Bool → ℕ
flag true = 1
flag false = 0

module _ (kernel : Kernel) where
  -- The calls of `write_int` whose status is not looked at.
  unfoldable pub write_three : File → ℕ → File → ℕ → File → ℕ → Board → Board
  write_three f u g v h w b =
      let (_, b1) = write_int kernel f u b in
      let (_, b2) = write_int kernel g v b1 in (write_int kernel h w b2).1

  -- The branch for `state == NULL`.
  unfoldable pub turn_off : Board → Board
  unfolding write_three
  turn_off b =
      let b1 = write_three red_blink 0 green_blink 0 blue_blink 0 b in
      write_three red_led 0 green_led 0 blue_led 0 b1

  -- The branch that blinks, with the bytes of the colour.
  unfoldable pub blink : ℕ → ℕ → ℕ → Board → Board
  unfolding write_three
  blink red green blue b =
      let r = rounded red in
      let g = rounded green in
      let l = rounded blue in
      let none_on = r == 0 && (g == 0 && l == 0) in
      let r' = if none_on then 255 else r in
      let g' = if none_on then 255 else g in
      let l' = if none_on then 255 else l in
      write_three red_blink (flag (ltb 0 r')) green_blink (flag (ltb 0 g')) blue_blink
        (flag (ltb 0 l')) b

  -- The branch that lights the LEDs steadily.
  unfoldable pub light : ℕ → ℕ → ℕ → Board → Board
  unfolding write_three
  light red green blue b =
      write_three red_led (scaled red) green_led (scaled green) blue_led (scaled blue) b

  -- `set_speaker_light_locked`; the first argument tells whether `dev` is not NULL.
  unfoldable pub set_speaker_light_locked : Bool → Option LightState → Board → ℤ × Board
  unfolding effective blink light turn_off
  set_speaker_light_locked false state b = (negsuc 0, b)
  set_speaker_light_locked true none b = (pos 0, turn_off b)
  set_speaker_light_locked true (some state) b =
      let (mode, color) = effective state in
      (
        pos 0,
        if not (is_zero mode) && not (color == 0)
            then blink (red_of color) (green_of color) (blue_of color) b
            else light (red_of color) (green_of color) (blue_of color) b,
      )
