-- ===== src/Lights/Board.antt =====
-- liblight/lights.c: the light states, the sysfs files and the functions that read and write them.
use android_device_xiaomi_la.Common.{
  ℕ, ◌+◌, ◌*◌, ◌/◌, ◌%◌, ◌^◌, Bool, true, false, not, List, ◌∷◌, Option, none, some, ◌==◌,
  if◌then◌else◌, ℤ, pos, negsuc, sub_ℕ, is_positive, ◌+ℤ◌,
}

-- `struct light_state_t` of hardware/lights.h, as far as the file reads it; the colour is 32 bits.
pub record LightState : Type 0 where
  pub color : ℕ
  pub flash_mode : ℤ
  pub flash_on_ms : ℤ
  pub flash_off_ms : ℤ

-- LCD_FILE, the three LED files, the three blink files and BUTTON_FILE
pub data File : Type 0 where
  lcd red_led green_led blue_led red_blink green_blink blue_blink button : File

abbrev pub same_file : File → File → Bool
same_file lcd lcd = true
same_file red_led red_led = true
same_file green_led green_led = true
same_file blue_led blue_led = true
same_file red_blink red_blink = true
same_file green_blink green_blink = true
same_file blue_blink blue_blink = true
same_file button button = true
same_file _ _ = false

-- What each file holds, and every write that succeeded, the last one first.
pub record Board : Type 0 where
  pub value : File → ℕ
  pub writes : List (File × ℕ)

-- The kernel: the errno of an open and of a write, 0 for success. Both may depend on all that was
-- written before.
pub record Kernel : Type 0 where
  pub open_errno : Board → File → ℕ
  pub write_errno : Board → File → ℕ → ℕ

abbrev pub minus : ℕ → ℤ
minus n = sub_ℕ 0 n

module _ (kernel : Kernel) where
  -- `write_int`: the status and the board.
  unfoldable pub write_int : File → ℕ → Board → ℤ × Board
  write_int f v b =
      if kernel.open_errno b f == 0
      then (if kernel.write_errno b f v == 0
          then (
            pos 0,
            record {
              value = λ g. if same_file g f then v else b.value g;
              writes = (f, v) ∷ b.writes;
            },
          )
          else (minus (kernel.write_errno b f v), b))
      else (minus (kernel.open_errno b f), b)

-- `read_string`, on what `read` returned for the opened file (`none`: the open failed): what it
-- returns, and the index of the buffer at which it stores the terminator, `size - 1`.
unfoldable pub read_string : Option ℤ → ℤ × Option ℤ
read_string none = (negsuc 0, none)
read_string (some size) = (size, some (size +ℤ negsuc 0))

-- `read_int`: `strtol` of the buffer is its argument.
unfoldable pub read_int : Option ℤ → ℤ → ℤ × Option ℤ
unfolding read_string
read_int size parsed =
    if is_positive (read_string size).0 then (pos 0, some parsed) else (negsuc 0, none)

-- `is_lit`: color & 0x00ffffff
abbrev pub is_lit : LightState → Bool
is_lit state = not (state.color % 2 ^ 24 == 0)

-- The bytes of a colour: (color >> 16) & 0xff, (color >> 8) & 0xff and color & 0xff.
abbrev pub red_of : ℕ → ℕ
red_of color = color / 2 ^ 16 % 256

abbrev pub green_of : ℕ → ℕ
green_of color = color / 2 ^ 8 % 256

abbrev pub blue_of : ℕ → ℕ
blue_of color = color % 256

-- `rgb_to_brightness`; the mask is the remainder by 2^24, the shift by 8 a division.
unfoldable pub rgb_to_brightness : LightState → ℕ
rgb_to_brightness state =
    let color = state.color % 2 ^ 24 in
    (77 * red_of color + 150 * green_of color + 29 * blue_of color) / 2 ^ 8
