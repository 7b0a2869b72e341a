-- ===== src/Sensors/Tests.antt =====
-- The theorems about SensorManager at the platform of Model.
use android_device_xiaomi_la.Common.{
  ℕ, ◌≡◌, ◌⊎◌, refl, inl, inr, true, false, is_some, ◌==◌, if◌then◌else◌, List, [], ◌∷◌, Option,
  some, none, arith, length,
}
use android_device_xiaomi_la.Sensors.Manager.{
  Platform, SensorManager, create, connect, retry, fill, sensor_manager_died, destroy,
  get_sensor_list, get_default_sensor, create_event_queue, assert_state_locked, search, wakes,
}
use android_device_xiaomi_la.Sensors.Valid.{IsValid}
use android_device_xiaomi_la.Sensors.State.{
  Call, dies, gets_list, gets_default, creates_queue, run, step, run-IsValid, run-destroy,
}
use android_device_xiaomi_la.Sensors.Lookup.{IsFirst, get_default_sensor-IsFirst}
use android_device_xiaomi_la.Sensors.Queue.{create_event_queue_returns, create_event_queue_spins}
use android_device_xiaomi_la.Sensors.Model.{Machine, tick, extent, platform, service, memory}

-- Before the manager there is one array, of 4 elements.
abbrev start : Machine
start = record { time = 0; last = 1; sizes = λ q. some 4; cells = λ q j. j }

abbrev calls : List Call
calls = gets_default 1 ∷ dies ∷ creates_queue 9 ∷ gets_list ∷ []

abbrev or_none : Option (SensorManager × Machine) → SensorManager × Machine
or_none none = (record { server = 0; sensors = []; list = 0 }, start)
or_none (some s) = s

-- The manager and the world after the calls.
abbrev ended : SensorManager × Machine
ended = or_none (run platform calls (create platform start))

-- The manager is there again after the death, with the three sensors and its second array.
ended_again : (ended.0.server ≡ 7) × (length ended.0.sensors ≡ 3) × (ended.0.list ≡ 3)
unfolding run step create connect retry get_sensor_list get_default_sensor create_event_queue
    assert_state_locked sensor_manager_died fill
ended_again = (refl, refl, refl)

run-IsValid_example : IsValid platform memory start ended.0 ended.1
unfolding run step create connect retry get_sensor_list get_default_sensor create_event_queue
    assert_state_locked sensor_manager_died fill
run-IsValid_example = run-IsValid platform service memory calls start ended refl

run-destroy_example :
    ((ended.0.list ≡ 0) ⊎ (is_some (extent ended.1 ended.0.list) ≡ true))
    × ((q : ℕ) → extent (destroy platform ended.0 ended.1) q ≡ extent start q)
unfolding run step create connect retry get_sensor_list get_default_sensor create_event_queue
    assert_state_locked sensor_manager_died fill
run-destroy_example = run-destroy platform service memory calls start ended refl

-- A manager with two sensors, whose array is the second one.
abbrev known : SensorManager
known = record {
  server = 7;
  sensors = record { type = 1; wake_up = true } ∷ record { type = 1; wake_up = false } ∷ [];
  list = 2;
}

abbrev later : ℕ → Machine
later t = record {
  time = t;
  last = 2;
  sizes = λ q. if q == 2 then some 2 else some 4;
  cells = λ q j. j;
}

known-IsValid : IsValid platform memory start known (later 5)
known-IsValid = record {
  loaded = inr (omega arith, λ j h. refl);
  given = inl (omega arith);
  owned = λ q nz. ground arith;
  fresh = ground arith;
}

-- The first sensor of type 1 is a wake-up sensor, so that the second is the default.
default_of_known : (get_default_sensor platform 1 known (later 5)).0 ≡ some 1
unfolding get_default_sensor assert_state_locked search wakes
default_of_known = refl

get_default_sensor-IsFirst_example :
    let (found, m, _) = get_default_sensor platform 1 known (later 5) in
    IsFirst platform 1 m.sensors 0 (length m.sensors) found
get_default_sensor-IsFirst_example =
    get_default_sensor-IsFirst platform service memory 1 start known (later 5) known-IsValid

create_event_queue_returns_example :
    create_event_queue platform 5 known (later 8) ≡ some (3, known, later 10)
create_event_queue_returns_example =
    create_event_queue_returns platform 1 5 known (later 8) (omega arith) (omega arith)
      (λ j h. ground arith) (omega arith)

-- A service that is dead: no connection is given.
abbrev dead : Platform
dead = record platform { create_connection = λ s w. (0, tick w) }

create_event_queue_spins_example : create_event_queue dead 100 known (later 8) ≡ none
create_event_queue_spins_example =
    create_event_queue_spins dead 100 known (later 8) (omega arith) (λ v. refl)
