-- ===== src/Power/Tests.antt =====
-- The theorems about the power HAL at concrete inputs, with a clock in milliseconds.
use android_device_xiaomi_la.Common.{
  ℕ, ◌-◌, ◌≤◌, ◌<◌, ◌≡◌, ◌⊎◌, refl, Bool, true, false, List, [], ◌∷◌, some, arith, ltb, leb,
  if◌then◌else◌, text,
}
use android_device_xiaomi_la.Power.Hints.{
  Timing, IsOrdered, Hint, interaction, vsync, Power, loaded, intel_power_init, intel_power_hint,
  hints, count_pulses,
}
use android_device_xiaomi_la.Power.Invariant.{IsValid, hints-IsValid}
use android_device_xiaomi_la.Power.Boosts.{vsyncs, vsyncs_bounded, touches, Quick-touches}
use android_device_xiaomi_la.Power.Sysfs.{
  Kernel, touchboost_pulse_sysfs, touchboost_sysfs, sysfs_read, perform_all,
}
use android_device_xiaomi_la.Power.Performed.{is_tidy, count_opens, hints-Performed}
use android_device_xiaomi_la.Power.Reading.{IsBounded, sysfs_read_fits}

abbrev clock : Timing
clock = record {
  Time = ℕ;
  Elapsed = ℕ;
  elapsed = λ a b. a - b;
  below = ltb;
  above = λ d n. ltb n d;
}

ordered : IsOrdered clock
ordered = record { below_not_above = λ d m n h e. ground arith }

-- A scroll: six touches 10 ms apart, then a frame 40 ms later, and frames with data 1.
abbrev scroll : List (Hint × ℕ)
scroll =
    (interaction, 200)
    ∷ (interaction, 210)
    ∷ (interaction, 220)
    ∷ (interaction, 230)
    ∷ (interaction, 240)
    ∷ (interaction, 250)
    ∷ (vsync true, 290)
    ∷ (vsync true, 300)
    ∷ []

scroll_boosts :
    let p = hints clock scroll (loaded clock 0) in
    (count_pulses p.writes ≡ 7) × (p.vsync_count ≡ 2) × (p.touchboost_disable ≡ 0)
unfolding hints loaded intel_power_hint
scroll_boosts = (refl, refl, refl)

hints-IsValid_example : IsValid clock (hints clock scroll (intel_power_init clock (loaded clock 0)))
hints-IsValid_example = hints-IsValid clock scroll 0

-- The module in the middle of a scroll, with one vsync boost due and touch boosts off.
abbrev scrolling : Power clock
scrolling = record {
  touchboost_disable = 1;
  timer_set = 0;
  vsync_boost = 1;
  curr_time = 300;
  prev_time = 300;
  vsync_count = 1;
  consecutive_touch_int = 7;
  writes = [];
}

abbrev frames : List (Bool × ℕ)
frames = (true, 310) ∷ (true, 340) ∷ (true, 350) ∷ []

vsyncs_bounded_example : count_pulses (hints clock (vsyncs clock frames) scrolling).writes ≤ 5
vsyncs_bounded_example = vsyncs_bounded clock frames scrolling

abbrev fresh : Power clock
fresh = record scrolling {
  touchboost_disable = 0;
  vsync_boost = 0;
  vsync_count = 0;
  consecutive_touch_int = 1;
}

Quick-touches_example :
    count_pulses (hints clock (touches clock (310 ∷ 320 ∷ 330 ∷ 340 ∷ 350 ∷ [])) fresh).writes ≡ 3
Quick-touches_example =
    Quick-touches clock (310 ∷ 320 ∷ 330 ∷ 340 ∷ 350 ∷ []) fresh
      (refl, (refl, (refl, (refl, (refl, tt))))) refl

-- A kernel that opens the file as descriptor 3, takes one byte of a write, and gives two bytes.
abbrev kernel : Kernel
kernel = record {
  open_to_write = λ path log. some 3;
  open_to_read = λ path log. some 3;
  write = λ fd s log. some 1;
  read = λ fd size log. some (if leb 2 size then 50 ∷ 52 ∷ [] else []);
}

bounded : IsBounded kernel
bounded = record { read_fits = λ fd size log bytes e. ground arith }

hints-Performed_example :
    let p = hints clock scroll (intel_power_init clock (loaded clock 0)) in
    let log = perform_all kernel p.writes [] in
    (is_tidy log ≡ true)
    × (count_opens touchboost_pulse_sysfs log ≡ count_pulses p.writes)
    × (count_opens touchboost_sysfs log ≡ 1)
hints-Performed_example = hints-Performed clock kernel scroll 0

sysfs_read_fits_example :
    let (r, s, _) = sysfs_read kernel (text "timer_rate") (λ k. 7) 3 [] in
    (s 3 ≡ 7) × ((r ≡ false) ⊎ ((i : ℕ) × (i < 3) × (s i ≡ 0)))
sysfs_read_fits_example =
    sysfs_read_fits kernel bounded (text "timer_rate") (λ k. 7) 3 [] 3 (omega arith) (omega arith)
      (omega arith)
