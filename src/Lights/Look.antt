-- ===== src/Lights/Look.antt =====
-- What the six LED files are to show for a state, described without the code that writes them.
use android_device_xiaomi_la.Common.{
  ℕ, ◌≡◌, Bool, true, false, not, ◌&&◌, ◌||◌, ltb, leb, ◌==◌, if◌then◌else◌, is_zero, is_positive,
  neg_part,
}
use android_device_xiaomi_la.Lights.Board.{
  LightState, File, lcd, red_led, green_led, blue_led, red_blink, green_blink, blue_blink, button,
  red_of, green_of, blue_of,
}
use android_device_xiaomi_la.Lights.Speaker.{scaled, flag}
use android_device_xiaomi_la.Lights.Module.{
  Globals, SetLight, set_battery, set_notifications, set_attention,
}

-- The durations are not negative.
abbrev pub IsTimed : LightState → Type 0
IsTimed s = (neg_part s.flash_on_ms ≡ 0) × (neg_part s.flash_off_ms ≡ 0)

-- The globals once a call has stored its state.
abbrev pub stored : SetLight → LightState → Globals → Globals
stored set_battery s g = record g { battery = s }
stored set_notifications s g = record g { notification = s }
stored set_attention s g = record g { attention = s }
stored _ s g = g

-- The calls that drive the notification LED.
abbrev pub shares_led : SetLight → Bool
shares_led set_battery = true
shares_led set_notifications = true
shares_led set_attention = true
shares_led _ = false

-- A state blinks if it asks for a flash, has a colour, and is both on and off for some time.
abbrev pub blinks : LightState → Bool
blinks s =
    not (is_zero s.flash_mode)
    && (not (s.color == 0) && (is_positive s.flash_on_ms && is_positive s.flash_off_ms))

-- A flash that is off all the time is dark; any other state that does not blink has its colour.
abbrev pub steady : LightState → ℕ
steady s =
    if not (is_zero s.flash_mode) && (is_zero s.flash_on_ms && is_positive s.flash_off_ms)
    then 0
    else s.color

-- A blinking channel is one above the middle; if there is none, all blink.
abbrev pub on_channel : ℕ → LightState → Bool
on_channel c s =
    ltb 127 c
    || (leb (red_of s.color) 127 && (leb (green_of s.color) 127 && leb (blue_of s.color) 127))

-- What the three LED files and the three blink files are to hold for a state.
unfoldable pub shows : LightState → File → ℕ
shows s red_led = if blinks s then 0 else scaled (red_of (steady s))
shows s green_led = if blinks s then 0 else scaled (green_of (steady s))
shows s blue_led = if blinks s then 0 else scaled (blue_of (steady s))
shows s red_blink = if blinks s then flag (on_channel (red_of s.color) s) else 0
shows s green_blink = if blinks s then flag (on_channel (green_of s.color) s) else 0
shows s blue_blink = if blinks s then flag (on_channel (blue_of s.color) s) else 0
shows s _ = 0

abbrev pub is_led : File → Bool
is_led lcd = false
is_led button = false
is_led _ = true
