-- ===== src/Sensors/Model.antt =====
-- A small platform: its world counts the times that the service was asked for or slept on, and keeps
-- the arrays. The service is found from the third time on.
use android_device_xiaomi_la.Common.{
  ℕ, suc, ◌+◌, refl, true, false, not, ◌&&◌, [], ◌∷◌, Option, some, none, ltb, leb, ◌==◌,
  if◌then◌else◌, arith, ok, name_not_found,
}
use android_device_xiaomi_la.Sensors.Manager.{Platform, IsService}
use android_device_xiaomi_la.Sensors.Memory.{IsMemory}

pub record Machine : Type 0 where
  pub time : ℕ
  -- the last address that was given out, the size of an array, and its elements
  pub last : ℕ
  pub sizes : ℕ → Option ℕ
  pub cells : ℕ → ℕ → ℕ

abbrev pub tick : Machine → Machine
tick w = record w { time = w.time + 1 }

abbrev pub extent : Machine → ℕ → Option ℕ
extent w q = if leb q w.last && not (q == 0) then w.sizes q else none

abbrev pub platform : Platform
platform = record {
  World = Machine;
  get_service = λ w. if ltb w.time 4 then (name_not_found, 0, tick w) else (ok, 7, tick w);
  sleep = tick;
  link_to_death = λ s w. w;
  sensors_of = λ s w. (
    record { type = 1; wake_up = true }
        ∷ record { type = 1; wake_up = false }
        ∷ record { type = 8; wake_up = true }
        ∷ [],
    w,
  );
  create_connection = λ s w. ((if ltb w.time 9 then 0 else 3), tick w);
  malloc = λ n w. (
    suc w.last,
    record w { last = suc w.last; sizes = λ q. if q == suc w.last then some n else w.sizes q },
  );
  free = λ p w. record w { sizes = λ q. if q == p then none else w.sizes q };
  store = λ p i v w. record w { cells = λ q j. if q == p && j == i then v else w.cells q j };
  load = λ w p i. w.cells p i;
  proximity = 8;
  significant_motion = 17;
  tilt_detector = 22;
  wake_gesture = 23;
  glance_gesture = 24;
  pick_up_gesture = 25;
}

abbrev pub service : IsService platform
service = record { found = λ w e. ground arith; missing = λ w e. ground arith }

abbrev pub memory : IsMemory platform
memory = record {
  extent = extent;
  extent_null = λ w. ground arith;
  malloc_fresh = λ n w. ground arith;
  malloc_given = λ n w h. ground arith;
  extent-malloc = λ n w q h. ground arith;
  extent-free = λ p w q h. ground arith;
  extent-store = λ p i v n w q has h. refl;
  load-store = λ p i v n w j has h. ground arith;
  same-get_service = λ w q. (ground arith, λ j. ground arith);
  same-sleep = λ w q. (refl, λ j. refl);
  same-link_to_death = λ s w q. (refl, λ j. refl);
  same-sensors_of = λ s w q. (refl, λ j. refl);
  same-create_connection = λ s w q. (refl, λ j. refl);
}
