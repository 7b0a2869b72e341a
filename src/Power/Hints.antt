-- ===== src/Power/Hints.antt =====
-- libpower/power.c: the state of the module and what each hint does to it. A write to sysfs is
-- recorded when it is asked for: that it fails is logged and changes nothing.
use android_device_xiaomi_la.Common.{
  ℕ, ◌+◌, ◌-◌, Bool, true, false, ◌&&◌, not, ltb, ◌==◌, if◌then◌else◌, List, [], ◌∷◌, ◌≡◌, ◌≤◌,
}

-- clock() and the float arithmetic on it: the elapsed milliseconds of two clock values, and the
-- comparison of such a float with an int constant.
pub record Timing : Type 1 where
  pub Time : Type 0
  pub Elapsed : Type 0
  -- (((float)a - (float)b) / CLOCKS_PER_SEC) * 1000
  pub elapsed : Time → Time → Elapsed
  pub below : Elapsed → ℕ → Bool
  pub above : Elapsed → ℕ → Bool

-- A float that is less than one constant is not greater than a constant at least as large.
pub record IsOrdered (t : Timing) : Type 0 where
  pub below_not_above : (d : t.Elapsed) (m n : ℕ) → m ≤ n → t.below d m ≡ true → t.above d n ≡ false

abbrev pub short_touch_time : ℕ
short_touch_time = 20

abbrev pub long_touch_time : ℕ
long_touch_time = 100

abbrev pub vsync_boost_count : ℕ
vsync_boost_count = 4

abbrev pub vsync_touch_time : ℕ
vsync_touch_time = 30

-- TOUCHBOOST_PULSE_SYSFS with "1", and TOUCHBOOST_SYSFS with INTEL_TOUCHBOOST_FREQ
pub data Write : Type 0 where
  pulse freq : Write

-- POWER_HINT_INTERACTION; POWER_HINT_VSYNC with whether its data is 1; any other hint.
pub data Hint : Type 0 where
  interaction : Hint
  vsync : Bool → Hint
  other : Hint

abbrev pub count_pulses : List Write → ℕ
count_pulses [] = 0
count_pulses (pulse ∷ ws) = count_pulses ws + 1
count_pulses (freq ∷ ws) = count_pulses ws

module _ (timing : Timing) where
  open timing use {Time, Elapsed, elapsed, below, above}

  -- The fields of `struct intel_power_module`, the static variables of intel_power_hint that
  -- outlive a call, and the writes, the last one first.
  pub record Power : Type 0 where
    pub touchboost_disable : ℕ
    pub timer_set : ℕ
    pub vsync_boost : ℕ
    pub curr_time : Time
    pub prev_time : Time
    pub vsync_count : ℕ
    pub consecutive_touch_int : ℕ
    pub writes : List Write

  -- The module as it is linked in; the clock variables start at the clock value 0.
  unfoldable pub loaded : Time → Power
  loaded zero_time = record {
    touchboost_disable = 0;
    timer_set = 0;
    vsync_boost = 0;
    curr_time = zero_time;
    prev_time = zero_time;
    vsync_count = 0;
    consecutive_touch_int = 0;
    writes = [];
  }

  unfoldable pub intel_power_init : Power → Power
  intel_power_init p = record p { writes = freq ∷ p.writes }

  -- The branches on the time since the last touch.
  unfoldable pub count_touch : Elapsed → Power → Power
  count_touch diff p =
      if below diff short_touch_time
      then record p { consecutive_touch_int = p.consecutive_touch_int + 1 }
      else if above diff long_touch_time
      then record p {
        vsync_boost = 0;
        timer_set = 0;
        touchboost_disable = 0;
        vsync_count = 0;
        consecutive_touch_int = 0;
      }
      else p

  unfoldable pub disable_boost : Elapsed → Power → Power
  disable_boost diff p =
      if below diff short_touch_time && (p.touchboost_disable == 0 && ltb 4 p.consecutive_touch_int)
      then record p { touchboost_disable = 1 }
      else p

  unfoldable pub set_timer : Power → Power
  set_timer p =
      if p.touchboost_disable == 1 && (ltb 15 p.consecutive_touch_int && p.timer_set == 0)
      then record p { timer_set = 1 }
      else p

  unfoldable pub boost_touch : Power → Power
  boost_touch p = if p.touchboost_disable == 0 then record p { writes = pulse ∷ p.writes } else p

  -- POWER_HINT_INTERACTION, with what clock() returns.
  unfoldable pub touch : Time → Power → Power
  unfolding count_touch disable_boost set_timer boost_touch
  touch now p =
      let diff = elapsed now p.prev_time in
      let p1 = record p { curr_time = now; prev_time = now } in
      boost_touch (set_timer (disable_boost diff (count_touch diff p1)))

  -- The first half of POWER_HINT_VSYNC.
  unfoldable pub arm_vsync : Time → Power → Power
  arm_vsync now p =
      if p.touchboost_disable == 1 && above (elapsed now p.curr_time) vsync_touch_time
      then record p {
        timer_set = 0;
        vsync_boost = 1;
        touchboost_disable = 0;
        vsync_count = vsync_boost_count;
      }
      else p

  -- The second half, with whether the data is 1.
  unfoldable pub boost_vsync : Bool → Power → Power
  boost_vsync on p =
      if not (p.vsync_boost == 0) && (on && ltb 0 p.vsync_count)
      then record p {
        writes = pulse ∷ p.writes;
        vsync_count = p.vsync_count - 1;
        vsync_boost = if p.vsync_count - 1 == 0 then 0 else p.vsync_boost;
      }
      else p

  unfoldable pub intel_power_hint : Hint → Time → Power → Power
  unfolding touch arm_vsync boost_vsync
  intel_power_hint interaction now p = touch now p
  intel_power_hint (vsync on) now p = boost_vsync on (arm_vsync now p)
  intel_power_hint other now p = p

  unfoldable pub hints : List (Hint × Time) → Power → Power
  hints [] p = p
  hints ((h, now) ∷ hs) p = hints hs (intel_power_hint h now p)
