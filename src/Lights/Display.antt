-- ===== src/Lights/Display.antt =====
-- What the LED shows after the calls: the files against an independent description.
use android_device_xiaomi_la.Common.{
  ℕ, zero, suc, ◌%◌, ◌^◌, ◌≡◌, ◌≢◌, refl, sym, subst, Bool, true, false, not, ◌&&◌, ◌||◌, some,
  arith, ltb, leb, ◌==◌, if◌then◌else◌, ℤ, pos, negsuc, is_zero, is_positive, neg_part, ap, ◌∙◌,
  Bool-cases, inl, inr,
}
use android_device_xiaomi_la.Lights.Board.{
  LightState, File, lcd, red_led, green_led, blue_led, red_blink, green_blink, blue_blink, button,
  Board, Kernel, write_int, same_file, is_lit, red_of, green_of, blue_of,
}
use android_device_xiaomi_la.Lights.Speaker.{
  effective, scaled, flag, turn_off, blink, light, set_speaker_light_locked,
}
use android_device_xiaomi_la.Lights.Module.{
  Globals, winner, SetLight, set_battery, set_notifications, set_attention, set_light,
  set_light_battery, set_light_notifications, set_light_attention, handle_speaker_battery_locked,
}
use android_device_xiaomi_la.Lights.Look.{
  IsTimed, stored, shares_led, blinks, steady, shows, is_led,
}

-- Every open and every write succeeds.
pub record Works (kernel : Kernel) : Type 0 where
  pub opens : (b : Board) (f : File) → kernel.open_errno b f ≡ 0
  pub accepts : (b : Board) (f : File) (v : ℕ) → kernel.write_errno b f v ≡ 0

abbrev lit : ℕ → ℕ → ℕ → File → ℕ
lit r g b red_led = scaled r
lit r g b green_led = scaled g
lit r g b blue_led = scaled b
lit r g b _ = 0

abbrev all_low : ℕ → ℕ → ℕ → Bool
all_low r g b = leb r 127 && (leb g 127 && leb b 127)

abbrev blinking : ℕ → ℕ → ℕ → File → ℕ
blinking r g b red_blink = flag (ltb 127 r || all_low r g b)
blinking r g b green_blink = flag (ltb 127 g || all_low r g b)
blinking r g b blue_blink = flag (ltb 127 b || all_low r g b)
blinking r g b _ = 0

module _ (kernel : Kernel) (works : Works kernel) where
  pub value-write_int :
      (f : File) (v : ℕ) (b : Board) (g : File)
      → (write_int kernel f v b).1.value g ≡ (if same_file g f then v else b.value g)
  unfolding write_int
  value-write_int f v b g = ground (arith, works.opens b f, works.accepts b f v)

  -- After all six files were cleared, the steady branch leaves the blink files clear.
  light_value :
      (red green blue : ℕ) (b : Board) (f : File)
      → is_led f ≡ true
      → (light kernel red green blue (turn_off kernel b)).value f ≡ lit red green blue f
  unfolding light turn_off
  light_value red green blue b red_led h = simp value-write_int
  light_value red green blue b green_led h = simp value-write_int
  light_value red green blue b blue_led h = simp value-write_int
  light_value red green blue b red_blink h = simp value-write_int
  light_value red green blue b green_blink h = simp value-write_int
  light_value red green blue b blue_blink h = simp value-write_int
  light_value red green blue b lcd h = cc
  light_value red green blue b button h = cc

  -- The blinking branch leaves the LED files clear.
  blink_value :
      (red green blue : ℕ) (b : Board) (f : File)
      → is_led f ≡ true
      → (blink kernel red green blue (turn_off kernel b)).value f ≡ blinking red green blue f
  unfolding blink turn_off
  blink_value red green blue b red_led h = simp value-write_int
  blink_value red green blue b green_led h = simp value-write_int
  blink_value red green blue b blue_led h = simp value-write_int
  blink_value red green blue b red_blink h = simp value-write_int (ground arith)
  blink_value red green blue b green_blink h = simp value-write_int (ground arith)
  blink_value red green blue b blue_blink h = simp value-write_int (ground arith)
  blink_value red green blue b lcd h = cc
  blink_value red green blue b button h = cc

effective_lem :
    (mode on off : ℤ) (color : ℕ)
    → neg_part on ≡ 0
    → neg_part off ≡ 0
    → let s : LightState = record {
      color = color;
      flash_mode = mode;
      flash_on_ms = on;
      flash_off_ms = off;
    } in
      ((not (is_zero (effective s).0) && not ((effective s).1 == 0)) ≡ blinks s)
      × ((effective s).1 ≡ (if blinks s then color else steady s))
unfolding effective
effective_lem mode (pos zero) (pos zero) c a b = ground arith
effective_lem mode (pos zero) (pos (suc n)) c a b = ground arith
effective_lem mode (pos (suc k)) (pos zero) c a b = ground arith
effective_lem mode (pos (suc k)) (pos (suc n)) c a b = ground arith
effective_lem mode (negsuc k) off c a b = absurd (omega arith)
effective_lem mode (pos zero) (negsuc n) c a b = absurd (omega arith)
effective_lem mode (pos (suc k)) (negsuc n) c a b = absurd (omega arith)

positive_part : (z : ℤ) → is_positive z ≡ true → neg_part z ≡ 0
positive_part (pos n) h = refl
positive_part (negsuc n) h = cc

shows_lem :
    (s : LightState) (f : File)
    → shows s f ≡ (
        if blinks s
        then blinking (red_of s.color) (green_of s.color) (blue_of s.color) f
        else lit (red_of (steady s)) (green_of (steady s)) (blue_of (steady s)) f)
unfolding shows
shows_lem s lcd = ground arith
shows_lem s red_led = refl
shows_lem s green_led = refl
shows_lem s blue_led = refl
shows_lem s red_blink = refl
shows_lem s green_blink = refl
shows_lem s blue_blink = refl
shows_lem s button = ground arith

module _ (kernel : Kernel) (works : Works kernel) where
  speaker_shows :
      (s : LightState) (b : Board) (f : File)
      → IsTimed s
      → is_led f ≡ true
      → (set_speaker_light_locked kernel true (some s) (turn_off kernel b)).1.value f ≡ shows s f
  unfolding set_speaker_light_locked
  speaker_shows s b f timed led =
      let e = effective_lem s.flash_mode s.flash_on_ms s.flash_off_ms s.color timed.0 timed.1 in
      let steadily =
        λ (c : ℕ). light_value kernel works (red_of c) (green_of c) (blue_of c) b f led in
      let flashing =
        λ (c : ℕ). blink_value kernel works (red_of c) (green_of c) (blue_of c) b f led in
      elim (Bool-cases (blinks s)) [
        | inl y ↦ rw (shows_lem, e.0, e.1, y) (flashing s.color)
        | inr n ↦ rw (shows_lem, e.0, e.1, n) (steadily (steady s))
      ]

  handle_winner :
      (g : Globals)
      → (handle_speaker_battery_locked kernel true g).board
        ≡ (set_speaker_light_locked kernel true (some (winner g)) (turn_off kernel g.board)).1
  unfolding handle_speaker_battery_locked set_speaker_light_locked
  handle_winner g = elim (Bool-cases (is_lit g.attention)) [
    | inl a ↦ rw a refl
    | inr a ↦
        rw a (elim (Bool-cases (is_lit g.notification)) [ inl n ↦ rw n refl | inr n ↦ rw n refl ])
  ]

  handle_shows :
      (g : Globals) (f : File)
      → IsTimed (winner g)
      → is_led f ≡ true
      → (handle_speaker_battery_locked kernel true g).board.value f ≡ shows (winner g) f
  handle_shows g f timed led = rw handle_winner (speaker_shows (winner g) g.board f timed led)

  -- With files that accept every write, a call of the battery, notification or attention light on
  -- an open device leaves in the six LED files exactly what is described for the winner of the
  -- three states: attention if lit, else notification if lit, else battery. Condition: the
  -- winner's durations are not negative.
  pub set_light-shows :
      (call : SetLight) (s : LightState) (g : Globals) (f : File)
      → shares_led call ≡ true
      → IsTimed (winner (stored call s g))
      → is_led f ≡ true
      → (set_light kernel call true s g).1.board.value f ≡ shows (winner (stored call s g)) f
  unfolding set_light set_light_battery set_light_notifications set_light_attention
  set_light-shows set_battery s g f h timed led =
      handle_shows (record g { battery = s }) f timed led
  set_light-shows set_notifications s g f h timed led =
      handle_shows (record g { notification = s }) f timed led
  set_light-shows set_attention s g f h timed led =
      handle_shows (record g { attention = s }) f timed led
  set_light-shows _ s g f h timed led = cc

  -- A battery state whose colour has no red, green or blue but a non-zero alpha byte is not lit for
  -- `is_lit`, and still, if it asks for a flash that is on and off for some time and the two other
  -- states are not lit, it makes all three LEDs blink.
  unlit_battery_blinks :
      (s : LightState) (g : Globals)
      → s.color % 2 ^ 24 ≡ 0
      → s.color ≢ 0
      → is_zero s.flash_mode ≡ false
      → is_positive s.flash_on_ms ≡ true
      → is_positive s.flash_off_ms ≡ true
      → is_lit g.attention ≡ false
      → is_lit g.notification ≡ false
      → let b = (set_light kernel set_battery true s g).1.board in
        (is_lit s ≡ false)
        × (b.value red_blink ≡ 1)
        × (b.value green_blink ≡ 1)
        × (b.value blue_blink ≡ 1)
  unfolding shows
  unlit_battery_blinks s g dark alpha mode on off quiet quiet' =
      let g' : Globals = record g { battery = s } in
      let wins : winner g' ≡ s = rw quiet (rw quiet' refl) in
      let timed : IsTimed s = (positive_part s.flash_on_ms on, positive_part s.flash_off_ms off) in
      let now = λ (f : File) (led : is_led f ≡ true).
        set_light-shows set_battery s g f refl (subst IsTimed (sym wins) timed) led
        ∙ ap (λ w. shows w f) wins in
      let yes_blinks : blinks s ≡ true = ground arith in
      let r : red_of s.color ≡ 0 = omega arith in
      let gr : green_of s.color ≡ 0 = omega arith in
      let bl : blue_of s.color ≡ 0 = omega arith in
      (
        ground arith,
        now red_blink refl ∙ rw (yes_blinks, r, gr, bl) refl,
        now green_blink refl ∙ rw (yes_blinks, r, gr, bl) refl,
        now blue_blink refl ∙ rw (yes_blinks, r, gr, bl) refl,
      )
