-- ===== src/Power/Performed.antt =====
-- What the hints do to the files of sysfs.
use android_device_xiaomi_la.Common.{
  ℕ, ◌+◌, ◌≡◌, refl, ◌∙◌, Bool, true, false, ◌&&◌, ◌||◌, List, [], ◌∷◌, none, some, Option-cases,
  inl, inr, arith, ◌==◌, if◌then◌else◌, Text, text, equal,
}
use android_device_xiaomi_la.Power.Hints.{
  Timing, Hint, interaction, vsync, other, Power, Write, pulse, freq, hints, intel_power_hint,
  intel_power_init, loaded, touch, count_touch, disable_boost, set_timer, boost_touch, arm_vsync,
  boost_vsync, count_pulses,
}
use android_device_xiaomi_la.Power.Sysfs.{
  opens_to_write, writes, closes, Log, Kernel, touchboost_pulse_sysfs, touchboost_sysfs,
  intel_touchboost_freq, sysfs_write, perform, perform_all,
}

-- What may be written to which file.
unfoldable pub is_allowed : Text → Text → Bool
is_allowed path s =
    (equal path touchboost_pulse_sysfs && equal s (text "1"))
    || (equal path touchboost_sysfs && equal s intel_touchboost_freq)

-- Each file that was opened was written to once, with what is allowed, and closed at once.
abbrev pub is_tidy : Log → Bool
is_tidy [] = true
is_tidy (opens_to_write path none ∷ log) = is_tidy log
is_tidy (closes c ∷ writes d s n ∷ opens_to_write path (some e) ∷ log) =
    (c == d && d == e) && (is_allowed path s && is_tidy log)
is_tidy _ = false

-- How often a file was opened, or tried to be.
abbrev pub count_opens : Text → Log → ℕ
count_opens path [] = 0
count_opens path (opens_to_write p fd ∷ log) =
    count_opens path log + (if equal p path then 1 else 0)
count_opens path (_ ∷ log) = count_opens path log

abbrev pub count_freqs : List Write → ℕ
count_freqs [] = 0
count_freqs (freq ∷ ws) = count_freqs ws + 1
count_freqs (pulse ∷ ws) = count_freqs ws

module _ (kernel : Kernel) where
  is_tidy-sysfs_write :
      (path s : Text) (log : Log)
      → is_allowed path s ≡ true
      → is_tidy (sysfs_write kernel path s log) ≡ is_tidy log
  unfolding sysfs_write
  is_tidy-sysfs_write path s log h = elim (Option-cases (kernel.open_to_write path log)) [
    | inl e ↦ rw (e, sysfs_write) refl
    | inr (d, e) ↦ rw (e, sysfs_write) (ground (arith, h))
  ]

  count_opens-sysfs_write :
      (file path s : Text) (log : Log)
      → count_opens file (sysfs_write kernel path s log)
        ≡ count_opens file log + (if equal path file then 1 else 0)
  unfolding sysfs_write
  count_opens-sysfs_write file path s log = elim (Option-cases (kernel.open_to_write path log)) [
    | inl e ↦ rw (e, sysfs_write) refl
    | inr (d, e) ↦ rw (e, sysfs_write) refl
  ]

  -- Every write is made as it should be, and each asked for is tried once.
  pub record Performed (ws : List Write) (log log' : Log) : Type 0 where
    pub tidy : is_tidy log' ≡ is_tidy log
    pub pulses :
        count_opens touchboost_pulse_sysfs log'
        ≡ count_opens touchboost_pulse_sysfs log + count_pulses ws
    pub freqs :
        count_opens touchboost_sysfs log' ≡ count_opens touchboost_sysfs log + count_freqs ws

  perform_all-Performed :
      (ws : List Write) (log : Log) → Performed ws log (perform_all kernel ws log)
  unfolding perform_all perform is_allowed
  perform_all-Performed [] log = record { tidy = refl; pulses = omega arith; freqs = omega arith }
  perform_all-Performed (pulse ∷ ws) log =
      let rest = perform_all-Performed ws log in
      let log1 = perform_all kernel ws log in
      record {
        tidy = is_tidy-sysfs_write touchboost_pulse_sysfs (text "1") log1 refl ∙ rest.tidy;
        pulses =
            count_opens-sysfs_write touchboost_pulse_sysfs touchboost_pulse_sysfs (text "1") log1
            ∙ omega (arith, rest.pulses);
        freqs =
            count_opens-sysfs_write touchboost_sysfs touchboost_pulse_sysfs (text "1") log1
            ∙ omega (arith, rest.freqs);
      }
  perform_all-Performed (freq ∷ ws) log =
      let rest = perform_all-Performed ws log in
      let log1 = perform_all kernel ws log in
      record {
        tidy = is_tidy-sysfs_write touchboost_sysfs intel_touchboost_freq log1 refl ∙ rest.tidy;
        pulses =
            count_opens-sysfs_write touchboost_pulse_sysfs touchboost_sysfs intel_touchboost_freq
              log1
            ∙ omega (arith, rest.pulses);
        freqs =
            count_opens-sysfs_write touchboost_sysfs touchboost_sysfs intel_touchboost_freq log1
            ∙ omega (arith, rest.freqs);
      }

module _ (timing : Timing) where
  open timing use {Time}

  count_freqs-hint :
      (h : Hint) (now : Time) (p : Power timing)
      → count_freqs (intel_power_hint timing h now p).writes ≡ count_freqs p.writes
  unfolding intel_power_hint touch count_touch disable_boost set_timer boost_touch arm_vsync
      boost_vsync
  count_freqs-hint interaction now p = ground arith
  count_freqs-hint (vsync on) now p = ground arith
  count_freqs-hint other now p = refl

  count_freqs-hints :
      (hs : List (Hint × Time)) (p : Power timing)
      → count_freqs (hints timing hs p).writes ≡ count_freqs p.writes
  unfolding hints
  count_freqs-hints [] p = refl
  count_freqs-hints ((h, now) ∷ hs) p =
      count_freqs-hints hs (intel_power_hint timing h now p) ∙ count_freqs-hint h now p

  -- From the loading of the module on, whatever hints arrive and whatever the kernel answers: every
  -- file that is opened is written to once and closed at once; the pulse file gets "1" and nothing
  -- else, and is opened, or tried to be, as often as a boost is asked for; the file of the frequency
  -- is opened, or tried to be, exactly once, by the initialisation, and gets the frequency and
  -- nothing else.
  pub hints-Performed :
      (kernel : Kernel) (hs : List (Hint × Time)) (z : Time)
      → let p = hints timing hs (intel_power_init timing (loaded timing z)) in
        let log = perform_all kernel p.writes [] in
        (is_tidy log ≡ true)
        × (count_opens touchboost_pulse_sysfs log ≡ count_pulses p.writes)
        × (count_opens touchboost_sysfs log ≡ 1)
  unfolding intel_power_init loaded
  hints-Performed kernel hs z =
      let p = hints timing hs (intel_power_init timing (loaded timing z)) in
      let done = perform_all-Performed kernel p.writes [] in
      let once = count_freqs-hints hs (intel_power_init timing (loaded timing z)) in
      (done.tidy, omega (arith, done.pulses), omega (arith, done.freqs, once))
