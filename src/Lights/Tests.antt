-- ===== src/Lights/Tests.antt =====
-- The theorems about the lights at concrete inputs.
use android_device_xiaomi_la.Common.{◌≡◌, refl, true, List, [], ◌∷◌, pos, Bool}
use android_device_xiaomi_la.Lights.Board.{
  LightState, File, red_led, blue_led, red_blink, Kernel, write_int,
}
use android_device_xiaomi_la.Lights.Speaker.{set_speaker_light_locked}
use android_device_xiaomi_la.Lights.Module.{
  Globals, SetLight, set_battery, set_attention, set_backlight, set_light, set_lights,
  set_light_battery,
}
use android_device_xiaomi_la.Lights.Display.{Works, set_light-shows}
use android_device_xiaomi_la.Lights.Look.{shows}
use android_device_xiaomi_la.Lights.Bounds.{InRange, set_lights-InRange}
use android_device_xiaomi_la.Lights.Runs.{Shown, set_lights-Shown}

abbrev dark : LightState
dark = record { color = 0; flash_mode = pos 0; flash_on_ms = pos 0; flash_off_ms = pos 0 }

-- A steady orange, and an alpha byte alone that flashes.
abbrev orange : LightState
orange = record {
  color = 0xffff8000;
  flash_mode = pos 0;
  flash_on_ms = pos 0;
  flash_off_ms = pos 0;
}

abbrev alpha_only : LightState
alpha_only = record {
  color = 0xff000000;
  flash_mode = pos 1;
  flash_on_ms = pos 500;
  flash_off_ms = pos 500;
}

abbrev start : Globals
start = record {
  notification = dark;
  battery = dark;
  attention = dark;
  board = record { value = λ f. 0; writes = [] };
}

abbrev kernel : Kernel
kernel = record { open_errno = λ b f. 0; write_errno = λ b f v. 0 }

works : Works kernel
works = record { opens = λ b f. refl; accepts = λ b f v. refl }

orange_leds :
    let b = (set_light kernel set_battery true orange start).1.board in
    (b.value red_led ≡ 48) × (b.value blue_led ≡ 0) × (b.value red_blink ≡ 0)
unfolding set_light set_light_battery set_speaker_light_locked write_int
orange_leds = (refl, refl, refl)

set_light-shows_example :
    (set_light kernel set_battery true orange start).1.board.value red_led ≡ 48
unfolding shows
set_light-shows_example =
    set_light-shows kernel works set_battery orange start red_led refl (refl, refl) refl

abbrev calls : List (SetLight × Bool × LightState)
calls =
    (set_battery, true, orange)
    ∷ (set_attention, true, alpha_only)
    ∷ (set_backlight, true, orange)
    ∷ []

set_lights-InRange_example : InRange (set_lights kernel calls start).board.writes
set_lights-InRange_example = set_lights-InRange kernel calls start tt

start-Shown : Shown start
unfolding shows
start-Shown File.lcd = refl
start-Shown File.red_led = refl
start-Shown File.green_led = refl
start-Shown File.blue_led = refl
start-Shown File.red_blink = refl
start-Shown File.green_blink = refl
start-Shown File.blue_blink = refl
start-Shown File.button = refl

set_lights-Shown_example : Shown (set_lights kernel calls start)
set_lights-Shown_example =
    set_lights-Shown kernel works calls start
      (refl, (refl, refl), (refl, (refl, refl), (refl, (refl, refl), tt)))
      ((refl, refl), (refl, refl), (refl, refl)) start-Shown
