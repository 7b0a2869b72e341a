-- ===== src/Lights/Module.antt =====
-- liblight/lights.c: the functions behind `set_light`, and `open_lights`.
use android_device_xiaomi_la.Common.{
  ◌%◌, Bool, true, false, if◌then◌else◌, List, [], ◌∷◌, Option, none, some, ℤ, pos, negsuc,
}
use android_device_xiaomi_la.Lights.Board.{
  LightState, lcd, button, Board, Kernel, write_int, is_lit, rgb_to_brightness,
}
use android_device_xiaomi_la.Lights.Speaker.{set_speaker_light_locked}

-- g_notification, g_battery and g_attention, and the files.
pub record Globals : Type 0 where
  pub notification : LightState
  pub battery : LightState
  pub attention : LightState
  pub board : Board

-- What `handle_speaker_battery_locked` shows: attention before notification before battery.
abbrev pub winner : Globals → LightState
winner g =
    if is_lit g.attention
    then g.attention
    else if is_lit g.notification
    then g.notification
    else g.battery

-- The LIGHT_ID_ constants that `open_lights` compares its name with, and any other name.
pub data LightId : Type 0 where
  backlight battery notifications buttons attention unknown : LightId

-- The function that `dev->set_light` points to.
pub data SetLight : Type 0 where
  set_backlight set_battery set_notifications set_buttons set_attention : SetLight

-- `open_lights`, by the name and whether `malloc` succeeds: 0, -EINVAL or -ENOMEM, and the device.
unfoldable pub open_lights : LightId → Bool → ℤ × Option SetLight
open_lights unknown _ = (negsuc 21, none)
open_lights _ false = (negsuc 11, none)
open_lights backlight true = (pos 0, some set_backlight)
open_lights battery true = (pos 0, some set_battery)
open_lights notifications true = (pos 0, some set_notifications)
open_lights buttons true = (pos 0, some set_buttons)
open_lights attention true = (pos 0, some set_attention)

module _ (kernel : Kernel) where
  unfoldable pub set_light_backlight : Bool → LightState → Globals → ℤ × Globals
  set_light_backlight false state g = (negsuc 0, g)
  set_light_backlight true state g =
      let (err, b) = write_int kernel lcd (rgb_to_brightness state) g.board in
      (err, record g { board = b })

  unfoldable pub handle_speaker_battery_locked : Bool → Globals → Globals
  handle_speaker_battery_locked dev g =
      let (_, b1) = set_speaker_light_locked kernel dev none g.board in
      let (_, b2) =
        if is_lit g.attention
        then set_speaker_light_locked kernel dev (some g.attention) b1
        else if is_lit g.notification
        then set_speaker_light_locked kernel dev (some g.notification) b1
        else set_speaker_light_locked kernel dev (some g.battery) b1 in
      record g { board = b2 }

  unfoldable pub set_light_battery : Bool → LightState → Globals → ℤ × Globals
  unfolding handle_speaker_battery_locked
  set_light_battery dev state g =
      (pos 0, handle_speaker_battery_locked dev (record g { battery = state }))

  unfoldable pub set_light_notifications : Bool → LightState → Globals → ℤ × Globals
  unfolding handle_speaker_battery_locked
  set_light_notifications dev state g =
      (pos 0, handle_speaker_battery_locked dev (record g { notification = state }))

  unfoldable pub set_light_attention : Bool → LightState → Globals → ℤ × Globals
  unfolding handle_speaker_battery_locked
  set_light_attention dev state g =
      (pos 0, handle_speaker_battery_locked dev (record g { attention = state }))

  unfoldable pub set_light_buttons : Bool → LightState → Globals → ℤ × Globals
  set_light_buttons false state g = (negsuc 0, g)
  set_light_buttons true state g =
      let (err, b) = write_int kernel button (state.color % 256) g.board in
      (err, record g { board = b })

  -- A call through `dev->set_light`.
  unfoldable pub set_light : SetLight → Bool → LightState → Globals → ℤ × Globals
  set_light set_backlight dev state g = set_light_backlight dev state g
  set_light set_battery dev state g = set_light_battery dev state g
  set_light set_notifications dev state g = set_light_notifications dev state g
  set_light set_buttons dev state g = set_light_buttons dev state g
  set_light set_attention dev state g = set_light_attention dev state g

  -- Calls one after the other, as the mutex makes them.
  unfoldable pub set_lights : List (SetLight × Bool × LightState) → Globals → Globals
  set_lights [] g = g
  set_lights ((f, dev, state) ∷ calls) g = set_lights calls (set_light f dev state g).1
