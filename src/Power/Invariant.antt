-- ===== src/Power/Invariant.antt =====
-- The states that the power HAL reaches.
use android_device_xiaomi_la.Common.{◌≤◌, ◌<◌, ◌≡◌, ◌⊎◌, Bool, List, [], ◌∷◌, arith}
use android_device_xiaomi_la.Power.Hints.{
  Timing, Hint, interaction, vsync, other, Power, loaded, intel_power_init, touch, arm_vsync,
  boost_vsync, intel_power_hint, hints,
}

module _ (timing : Timing) where
  open timing use {Time}

  -- The three flags are 0 or 1. Vsync boosts are due exactly while the flag says so, at most four.
  -- Touch boosts are off only after more than four quick touches, and the timer is set only while
  -- they are off and after more than fifteen.
  pub record IsValid (p : Power timing) : Type 0 where
    pub disable : p.touchboost_disable ≤ 1
    pub timer : p.timer_set ≤ 1
    pub boost : p.vsync_boost ≤ 1
    pub count : p.vsync_count ≤ 4
    pub due :
        ((p.vsync_boost ≡ 0) × (p.vsync_count ≡ 0)) ⊎ ((p.vsync_boost ≡ 1) × (0 < p.vsync_count))
    pub scrolling : (p.touchboost_disable ≡ 0) ⊎ (4 < p.consecutive_touch_int)
    pub sensitive :
        (p.timer_set ≡ 0) ⊎ ((p.touchboost_disable ≡ 1) × (15 < p.consecutive_touch_int))

  loaded-IsValid : (z : Time) → IsValid (loaded timing z)
  unfolding loaded
  loaded-IsValid z = ground arith

  touch-IsValid : (now : Time) (p : Power timing) → IsValid p → IsValid (touch timing now p)
  unfolding touch
  touch-IsValid now p v = ground arith

  vsync-IsValid :
      (on : Bool) (now : Time) (p : Power timing)
      → IsValid p
      → IsValid (boost_vsync timing on (arm_vsync timing now p))
  unfolding boost_vsync arm_vsync
  vsync-IsValid on now p v = ground arith

  hint-IsValid :
      (h : Hint) (now : Time) (p : Power timing)
      → IsValid p
      → IsValid (intel_power_hint timing h now p)
  unfolding intel_power_hint
  hint-IsValid interaction now p v = touch-IsValid now p v
  hint-IsValid (vsync on) now p v = vsync-IsValid on now p v
  hint-IsValid other now p v = v

  run-IsValid :
      (hs : List (Hint × Time)) (p : Power timing) → IsValid p → IsValid (hints timing hs p)
  unfolding hints
  run-IsValid [] p v = v
  run-IsValid ((h, now) ∷ hs) p v =
      run-IsValid hs (intel_power_hint timing h now p) (hint-IsValid h now p v)

  init-IsValid : (p : Power timing) → IsValid p → IsValid (intel_power_init timing p)
  unfolding intel_power_init
  init-IsValid p v = ground arith

  -- Whatever hints arrive at whatever times after the module is loaded and initialised, the flags
  -- are 0 or 1; vsync boosts are due exactly while their flag is set, at most four; touch boosts are
  -- off only after more than four quick touches, and the timer is set only while they are off and
  -- after more than fifteen.
  pub hints-IsValid :
      (hs : List (Hint × Time)) (z : Time)
      → IsValid (hints timing hs (intel_power_init timing (loaded timing z)))
  hints-IsValid hs z = run-IsValid hs _ (init-IsValid (loaded timing z) (loaded-IsValid z))
