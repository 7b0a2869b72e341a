-- ===== src/Lights/Bounds.antt =====
-- Every value that the lights HAL writes is in the range of its file.
use android_device_xiaomi_la.Common.{
  ℕ, ◌%◌, ◌≤◌, ◌<◌, Bool, true, false, List, [], ◌∷◌, some, none, Option, arith, ◌==◌, Bool-cases,
  inl, inr, is_zero, ◌&&◌, not,
}
use android_device_xiaomi_la.Lights.Board.{
  LightState, File, lcd, red_led, green_led, blue_led, red_blink, green_blink, blue_blink, button,
  Board, Kernel, write_int, is_lit, rgb_to_brightness, red_of, green_of, blue_of,
}
use android_device_xiaomi_la.Lights.Speaker.{
  effective, scaled, flag, write_three, turn_off, blink, light, set_speaker_light_locked,
}
use android_device_xiaomi_la.Lights.Module.{
  Globals, SetLight, set_backlight, set_battery, set_notifications, set_buttons, set_attention,
  set_light, set_light_backlight, set_light_battery, set_light_notifications, set_light_attention,
  set_light_buttons, set_lights, handle_speaker_battery_locked,
}

-- The greatest value of each file: a brightness byte, the 48 steps of a LED, and a switch.
abbrev pub limit : File → ℕ
limit lcd = 255
limit button = 255
limit red_led = 48
limit green_led = 48
limit blue_led = 48
limit _ = 1

-- Every write that the list records is within the limit of its file.
abbrev pub InRange : List (File × ℕ) → Type 0
InRange [] = Unit
InRange ((f, v) ∷ ws) = (v ≤ limit f) × InRange ws

brightness_le : (s : LightState) → rgb_to_brightness s ≤ 255
unfolding rgb_to_brightness
brightness_le s = omega arith

scaled_le : (c : ℕ) → c < 256 → scaled c ≤ 48
scaled_le c h = omega arith

flag_le : (b : Bool) → flag b ≤ 1
flag_le true = omega arith
flag_le false = omega arith

module _ (kernel : Kernel) where
  write_int-InRange :
      (f : File) (v : ℕ) (b : Board)
      → v ≤ limit f
      → InRange b.writes
      → InRange (write_int kernel f v b).1.writes
  unfolding write_int
  write_int-InRange f v b h r = ground arith

  write_three-InRange :
      (f : File) (u : ℕ) (g : File) (v : ℕ) (h : File) (w : ℕ) (b : Board)
      → u ≤ limit f
      → v ≤ limit g
      → w ≤ limit h
      → InRange b.writes
      → InRange (write_three kernel f u g v h w b).writes
  unfolding write_three
  write_three-InRange f u g v h w b x y z r =
      let b1 = (write_int kernel f u b).1 in
      let b2 = (write_int kernel g v b1).1 in
      write_int-InRange h w b2 z (write_int-InRange g v b1 y (write_int-InRange f u b x r))

  light-InRange :
      (r g l : ℕ) (b : Board)
      → r < 256
      → g < 256
      → l < 256
      → InRange b.writes
      → InRange (light kernel r g l b).writes
  unfolding light
  light-InRange r g l b x y z h =
      write_three-InRange red_led (scaled r) green_led (scaled g) blue_led (scaled l) b
        (scaled_le r x) (scaled_le g y) (scaled_le l z) h

  blink-InRange : (r g l : ℕ) (b : Board) → InRange b.writes → InRange (blink kernel r g l b).writes
  unfolding blink
  blink-InRange r g l b h =
      write_three-InRange red_blink _ green_blink _ blue_blink _ b (flag_le _) (flag_le _)
        (flag_le _) h

  turn_off-InRange : (b : Board) → InRange b.writes → InRange (turn_off kernel b).writes
  unfolding turn_off
  turn_off-InRange b h =
      write_three-InRange red_led 0 green_led 0 blue_led 0
        (write_three kernel red_blink 0 green_blink 0 blue_blink 0 b) (omega arith) (omega arith)
        (omega arith)
        (write_three-InRange red_blink 0 green_blink 0 blue_blink 0 b (omega arith) (omega arith)
          (omega arith) h)

  speaker-InRange :
      (dev : Bool) (s : Option LightState) (b : Board)
      → InRange b.writes
      → InRange (set_speaker_light_locked kernel dev s b).1.writes
  unfolding set_speaker_light_locked
  speaker-InRange false s b h = h
  speaker-InRange true none b h = turn_off-InRange b h
  speaker-InRange true (some s) b h =
      let c = (effective s).1 in
      elim (Bool-cases (not (is_zero (effective s).0) && not (c == 0))) [
        | inl y ↦ rw y (blink-InRange (red_of c) (green_of c) (blue_of c) b h)
        | inr n ↦ rw n (
            light-InRange (red_of c) (green_of c) (blue_of c) b (omega arith) (omega arith)
              (omega arith) h)
      ]

  handle-InRange :
      (dev : Bool) (g : Globals)
      → InRange g.board.writes
      → InRange (handle_speaker_battery_locked kernel dev g).board.writes
  unfolding handle_speaker_battery_locked
  handle-InRange dev g h =
      let b = (set_speaker_light_locked kernel dev none g.board).1 in
      let off = speaker-InRange dev none g.board h in
      elim (Bool-cases (is_lit g.attention)) [
        | inl a ↦ rw a (speaker-InRange dev (some g.attention) b off)
        | inr a ↦ rw a (elim (Bool-cases (is_lit g.notification)) [
          | inl n ↦ rw n (speaker-InRange dev (some g.notification) b off)
          | inr n ↦ rw n (speaker-InRange dev (some g.battery) b off)
        ])
      ]

  set_light-InRange :
      (f : SetLight) (dev : Bool) (s : LightState) (g : Globals)
      → InRange g.board.writes
      → InRange (set_light kernel f dev s g).1.board.writes
  unfolding set_light set_light_backlight set_light_battery set_light_notifications
      set_light_attention set_light_buttons
  set_light-InRange set_backlight false s g h = h
  set_light-InRange set_backlight true s g h =
      write_int-InRange lcd (rgb_to_brightness s) g.board (brightness_le s) h
  set_light-InRange set_battery dev s g h = handle-InRange dev (record g { battery = s }) h
  set_light-InRange set_notifications dev s g h =
      handle-InRange dev (record g { notification = s }) h
  set_light-InRange set_buttons false s g h = h
  set_light-InRange set_buttons true s g h =
      write_int-InRange button (s.color % 256) g.board (omega arith) h
  set_light-InRange set_attention dev s g h = handle-InRange dev (record g { attention = s }) h

  -- Whatever calls are made, with whatever colours, devices and failing files, no write leaves the
  -- range of its file: 0 to 255 for the backlight and the buttons, 0 to 48 for a LED, 0 or 1 for a
  -- blink switch.
  pub set_lights-InRange :
      (calls : List (SetLight × Bool × LightState)) (g : Globals)
      → InRange g.board.writes
      → InRange (set_lights kernel calls g).board.writes
  unfolding set_lights
  set_lights-InRange [] g h = h
  set_lights-InRange ((f, dev, s) ∷ calls) g h =
      set_lights-InRange calls (set_light kernel f dev s g).1 (set_light-InRange f dev s g h)
