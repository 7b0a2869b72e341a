-- ===== src/Lights/Runs.antt =====
-- Sequences of calls on open devices keep the LED in step with the three states.
use android_device_xiaomi_la.Common.{
  ℕ, ◌≡◌, refl, sym, Bool, true, false, List, [], ◌∷◌, if◌then◌else◌, ◌∙◌, Bool-cases, inl, inr,
}
use android_device_xiaomi_la.Lights.Board.{
  LightState, File, lcd, red_led, green_led, blue_led, red_blink, green_blink, blue_blink, button,
  Board, Kernel, write_int, is_lit, rgb_to_brightness, same_file,
}
use android_device_xiaomi_la.Lights.Module.{
  Globals, winner, SetLight, set_backlight, set_battery, set_notifications, set_buttons,
  set_attention, set_light, set_light_backlight, set_light_battery, set_light_notifications,
  set_light_attention, set_light_buttons, set_lights,
}
use android_device_xiaomi_la.Lights.Display.{Works, set_light-shows, value-write_int}
use android_device_xiaomi_la.Lights.Look.{IsTimed, shows, is_led, stored}

-- The durations of all three states are not negative.
abbrev pub AllTimed : Globals → Type 0
AllTimed g = IsTimed g.notification × IsTimed g.battery × IsTimed g.attention

-- The calls are made on open devices, with durations that are not negative.
abbrev pub Plain : List (SetLight × Bool × LightState) → Type 0
Plain [] = Unit
Plain ((f, dev, s) ∷ calls) = (dev ≡ true) × IsTimed s × Plain calls

-- The six LED files hold what is described for the winner.
abbrev pub Shown : Globals → Type 0
Shown g = (f : File) → (if is_led f then g.board.value f else 0) ≡ shows (winner g) f

Shown-of :
    (g : Globals) → ((f : File) → is_led f ≡ true → g.board.value f ≡ shows (winner g) f) → Shown g
unfolding shows
Shown-of g h lcd = refl
Shown-of g h button = refl
Shown-of g h red_led = h red_led refl
Shown-of g h green_led = h green_led refl
Shown-of g h blue_led = h blue_led refl
Shown-of g h red_blink = h red_blink refl
Shown-of g h green_blink = h green_blink refl
Shown-of g h blue_blink = h blue_blink refl

of_Shown :
    (g : Globals) (f : File) → Shown g → is_led f ≡ true → g.board.value f ≡ shows (winner g) f
of_Shown g f h led = sym (rw led refl) ∙ h f

winner-IsTimed : (g : Globals) → AllTimed g → IsTimed (winner g)
winner-IsTimed g t = elim (Bool-cases (is_lit g.attention)) [
  | inl a ↦ rw a t.2
  | inr a ↦ rw a (elim (Bool-cases (is_lit g.notification)) [ inl n ↦ rw n t.0 | inr n ↦ rw n t.1 ])
]

stored_timed :
    (c : SetLight) (s : LightState) (g : Globals) → IsTimed s → AllTimed g → AllTimed (stored c s g)
stored_timed set_backlight s g h t = t
stored_timed set_battery s g h t = (t.0, h, t.2)
stored_timed set_notifications s g h t = (h, t.1, t.2)
stored_timed set_buttons s g h t = t
stored_timed set_attention s g h t = (t.0, t.1, h)

module _ (kernel : Kernel) (works : Works kernel) where
  aside :
      (f g : File) (v : ℕ) (b : Board)
      → same_file g f ≡ false
      → (write_int kernel f v b).1.value g ≡ b.value g
  aside f g v b h = value-write_int kernel works f v b g ∙ rw h refl

  led_aside :
      (g : File) → is_led g ≡ true → (same_file g lcd ≡ false) × (same_file g button ≡ false)
  led_aside lcd h = cc
  led_aside button h = cc
  led_aside red_led h = (refl, refl)
  led_aside green_led h = (refl, refl)
  led_aside blue_led h = (refl, refl)
  led_aside red_blink h = (refl, refl)
  led_aside green_blink h = (refl, refl)
  led_aside blue_blink h = (refl, refl)

  set_light-Shown :
      (c : SetLight) (s : LightState) (g : Globals)
      → IsTimed s
      → AllTimed g
      → Shown g
      → AllTimed (set_light kernel c true s g).1 × Shown (set_light kernel c true s g).1
  unfolding set_light set_light_backlight set_light_battery set_light_notifications
      set_light_attention set_light_buttons
  set_light-Shown set_backlight s g h t shown = (
    t,
    Shown-of (set_light kernel set_backlight true s g).1 (λ f led.
        aside lcd f (rgb_to_brightness s) g.board (led_aside f led).0 ∙ of_Shown g f shown led),
  )
  set_light-Shown set_buttons s g h t shown = (
    t,
    Shown-of (set_light kernel set_buttons true s g).1
        (λ f led. aside button f _ g.board (led_aside f led).1 ∙ of_Shown g f shown led),
  )
  set_light-Shown set_battery s g h t shown =
      let t' = stored_timed set_battery s g h t in
      (
        t',
        Shown-of (set_light kernel set_battery true s g).1 (λ f led.
            set_light-shows kernel works set_battery s g f refl
              (winner-IsTimed (stored set_battery s g) t') led),
      )
  set_light-Shown set_notifications s g h t shown =
      let t' = stored_timed set_notifications s g h t in
      (
        t',
        Shown-of (set_light kernel set_notifications true s g).1 (λ f led.
            set_light-shows kernel works set_notifications s g f refl
              (winner-IsTimed (stored set_notifications s g) t') led),
      )
  set_light-Shown set_attention s g h t shown =
      let t' = stored_timed set_attention s g h t in
      (
        t',
        Shown-of (set_light kernel set_attention true s g).1 (λ f led.
            set_light-shows kernel works set_attention s g f refl
              (winner-IsTimed (stored set_attention s g) t') led),
      )

  -- With files that accept every write, from a state in which the LED files hold what is described
  -- for the winner of the three light states, any sequence of calls on open devices (backlight and
  -- buttons included) ends in such a state. Condition: no duration is negative.
  pub set_lights-Shown :
      (calls : List (SetLight × Bool × LightState)) (g : Globals)
      → Plain calls
      → AllTimed g
      → Shown g
      → Shown (set_lights kernel calls g)
  unfolding set_lights
  set_lights-Shown [] g p t shown = shown
  set_lights-Shown ((c, dev, s) ∷ calls) g p t shown =
      let next = set_light-Shown c s g p.1 t shown in
      rw p.0 (set_lights-Shown calls (set_light kernel c true s g).1 p.2 next.0 next.1)
