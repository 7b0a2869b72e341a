-- ===== src/Power/Boosts.antt =====
-- How many boosts the hints ask for.
use android_device_xiaomi_la.Common.{
  ℕ, ◌+◌, ◌-◌, ◌≤◌, ◌≡◌, ◌≢◌, refl, Bool, true, List, [], ◌∷◌, arith, length, if◌then◌else◌, leb,
}
use android_device_xiaomi_la.Power.Hints.{
  Timing, IsOrdered, Hint, interaction, vsync, Power, touch, short_touch_time, long_touch_time,
  arm_vsync, boost_vsync, intel_power_hint, hints, count_pulses, pulse,
}
use Prim.Native.Nat.{min}

module _ (timing : Timing) where
  open timing use {Time, elapsed, below, above}

  -- A sequence of vsync hints, by their data and clock values.
  abbrev pub vsyncs : List (Bool × Time) → List (Hint × Time)
  vsyncs [] = []
  vsyncs ((on, now) ∷ es) = (vsync on, now) ∷ vsyncs es

  -- The boosts still due, and those that a scroll can make due once.
  abbrev pub allowance : Power timing → ℕ
  allowance p = p.vsync_count + (if leb p.touchboost_disable 0 then 0 else 4)

  vsync_allowance :
      (on : Bool) (now : Time) (p : Power timing)
      → let p' = intel_power_hint timing (vsync on) now p in
        count_pulses p'.writes + allowance p' ≤ count_pulses p.writes + allowance p
  unfolding intel_power_hint arm_vsync boost_vsync
  vsync_allowance on now p = ground arith

  -- Between two touches, however many vsync hints arrive, they boost at most as often as was due
  -- before, and four times more if touch boosts were off.
  pub vsyncs_bounded :
      (es : List (Bool × Time)) (p : Power timing)
      → count_pulses (hints timing (vsyncs es) p).writes ≤ count_pulses p.writes + allowance p
  unfolding hints
  vsyncs_bounded [] p = omega arith
  vsyncs_bounded ((on, now) ∷ es) p = omega (
    arith,
    vsync_allowance on now p,
    vsyncs_bounded es (intel_power_hint timing (vsync on) now p),
  )

  -- Touches at the given times, each less than 20 ms after the one before it.
  abbrev pub Quick : Time → List Time → Type 0
  Quick last [] = Unit
  Quick last (now ∷ ts) = (below (elapsed now last) short_touch_time ≡ true) × Quick now ts

  abbrev pub touches : List Time → List (Hint × Time)
  touches [] = []
  touches (now ∷ ts) = (interaction, now) ∷ touches ts

  quick_touch :
      (now : Time) (p : Power timing)
      → below (elapsed now p.prev_time) short_touch_time ≡ true
      → let p' = touch timing now p in
        (p'.prev_time ≡ now)
        × (p'.consecutive_touch_int ≡ p.consecutive_touch_int + 1)
        × (p'.touchboost_disable ≡ (
            if leb p.touchboost_disable 0
            then (if leb p.consecutive_touch_int 3 then 0 else 1)
            else p.touchboost_disable))
        × (count_pulses p'.writes
            ≡ count_pulses p.writes
              + (if leb p.touchboost_disable 0
                  then (if leb p.consecutive_touch_int 3 then 1 else 0)
                  else 0))
  unfolding touch
  quick_touch now p h = ground arith

  Quick-disabled :
      (ts : List Time) (p : Power timing)
      → Quick p.prev_time ts
      → p.touchboost_disable ≢ 0
      → count_pulses (hints timing (touches ts) p).writes ≡ count_pulses p.writes
  unfolding hints intel_power_hint
  Quick-disabled [] p q off = refl
  Quick-disabled (now ∷ ts) p q off =
      let s = quick_touch now p q.0 in
      let p' = touch timing now p in
      ground (arith, Quick-disabled ts p' (rw s.0 q.1) (ground arith))

  -- Of a sequence of quick touches, with touch boosts on and `c` quick touches counted, the first
  -- `4 - c` boost and no other does.
  pub Quick-touches :
      (ts : List Time) (p : Power timing)
      → Quick p.prev_time ts
      → p.touchboost_disable ≡ 0
      → count_pulses (hints timing (touches ts) p).writes
        ≡ count_pulses p.writes + min (length ts) (4 - p.consecutive_touch_int)
  unfolding hints intel_power_hint
  Quick-touches [] p q on = omega arith
  Quick-touches (now ∷ ts) p q on =
      let s = quick_touch now p q.0 in
      let p' = touch timing now p in
      let q' : Quick p'.prev_time ts = rw s.0 q.1 in
      ground (arith, Quick-touches ts p' q', Quick-disabled ts p' q')

  -- A touch after more than 100 ms boosts, and puts the module back: no vsync boost is due, touch
  -- boosts are on, and no quick touch is counted. Condition: the clock's comparisons are ordered.
  long_pause_resets :
      (now : Time) (p : Power timing)
      → IsOrdered timing
      → above (elapsed now p.prev_time) long_touch_time ≡ true
      → touch timing now p ≡ record p {
        vsync_boost = 0;
        timer_set = 0;
        touchboost_disable = 0;
        vsync_count = 0;
        consecutive_touch_int = 0;
        curr_time = now;
        prev_time = now;
        writes = pulse ∷ p.writes;
      }
  unfolding touch
  long_pause_resets now p ord h =
      let slow = ord.below_not_above (elapsed now p.prev_time) 20 100 (omega arith) in ground arith
