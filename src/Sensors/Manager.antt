-- ===== src/Sensors/Manager.antt =====
-- shim/gui/SensorManager.cpp. Each method is called with the lock mLock, so it is one step; a service
-- and a connection are addresses, 0 for NULL. An array of pointers into mSensors holds their indices.
use android_device_xiaomi_la.Common.{
  ℕ, zero, suc, ◌≡◌, ◌≢◌, Bool, true, false, ◌&&◌, ◌||◌, List, [], Option, none, some, length,
  get_or, ◌==◌, if◌then◌else◌, Status, ok, is_ok, is_missing,
}

-- What the manager reads of a sensor.
pub record Sensor : Type 0 where
  pub type : ℕ
  pub wake_up : Bool

-- The binder calls, usleep, malloc and free with the arrays of pointers, and the constants of
-- hardware/sensors.h.
pub record Platform : Type 1 where
  pub World : Type 0
  -- getService("sensorservice", ...): status and service
  pub get_service : World → Status × ℕ × World
  pub sleep : World → World
  pub link_to_death : ℕ → World → World
  pub sensors_of : ℕ → World → List Sensor × World
  pub create_connection : ℕ → World → ℕ × World
  -- malloc for so many pointers
  pub malloc : ℕ → World → ℕ × World
  pub free : ℕ → World → World
  -- writing and reading the element of an array at an index
  pub store : ℕ → ℕ → ℕ → World → World
  pub load : World → ℕ → ℕ → ℕ
  pub proximity : ℕ
  pub significant_motion : ℕ
  pub tilt_detector : ℕ
  pub wake_gesture : ℕ
  pub glance_gesture : ℕ
  pub pick_up_gesture : ℕ

-- A service comes with NO_ERROR and only with it.
pub record IsService (platform : Platform) : Type 0 where
  pub found :
      (w : platform.World) → (platform.get_service w).0 ≡ ok → (platform.get_service w).1 ≢ 0
  pub missing :
      (w : platform.World) → (platform.get_service w).0 ≢ ok → (platform.get_service w).1 ≡ 0

-- mSensorServer, mSensors, and mSensorList: NULL, or an array of pointers into mSensors.
pub record SensorManager : Type 0 where
  pub server : ℕ
  pub sensors : List Sensor
  pub list : ℕ

abbrev pub unconnected : SensorManager
unconnected = record { server = 0; sensors = []; list = 0 }

abbrev pub same : Bool → Bool → Bool
same true b = b
same false b = if b then false else true

module _ (platform : Platform) where
  open platform use {
    World, get_service, sleep, link_to_death, sensors_of, create_connection, malloc, free, store,
    load,
  }

  unfoldable pub sensor_manager_died : SensorManager → World → SensorManager × World
  sensor_manager_died m w = (unconnected, free m.list w)

  -- ~SensorManager()
  unfoldable pub destroy : SensorManager → World → World
  destroy m w = free m.list w

  -- The loop that fills the array, from index `i` on, for `n` sensors.
  unfoldable pub fill : ℕ → ℕ → ℕ → World → World
  fill list i zero w = w
  fill list i (suc n) w = fill list (suc i) n (store list i i w)

  -- The tries after the first one: each sleeps and asks again while the service is not found.
  unfoldable pub retry : ℕ → Status → ℕ → World → Status × ℕ × World
  retry zero err server w = (err, server, w)
  retry (suc n) err server w =
      let (err', server', w') = get_service (sleep w) in
      let again = retry n err' server' w' in if is_missing err then again else (err, server, w)

  -- The loop of four tries.
  unfoldable pub connect : World → Status × ℕ × World
  unfolding retry
  connect w = let (err, server, w') = get_service w in retry 3 err server w'

  unfoldable pub assert_state_locked : SensorManager → World → Status × SensorManager × World
  unfolding connect fill
  assert_state_locked m w =
      let (err, server, w1) = connect w in
      let (sensors, w2) = sensors_of server (link_to_death server w1) in
      let (list, w3) = malloc (length sensors) w2 in
      if m.server == 0
      then (if is_ok err
          then (
            ok,
            record { server = server; sensors = sensors; list = list },
            fill list 0 (length sensors) w3,
          )
          else (err, record m { server = server }, w1))
      else (ok, m, w)

  -- SensorManager()
  unfoldable pub create : World → SensorManager × World
  unfolding assert_state_locked
  create w = let (err, m, w') = assert_state_locked unconnected w in (m, w')

  -- getSensorList: status, *list where it is written, the count, the manager. An error code is below
  -- 0.
  unfoldable pub get_sensor_list :
      SensorManager → World → Status × Option ℕ × ℕ × SensorManager × World
  unfolding assert_state_locked
  get_sensor_list m w =
      let (err, m', w') = assert_state_locked m w in
      if is_ok err then (ok, some m'.list, length m'.sensors, m', w') else (err, none, 0, m', w')

  -- Which types have a wake-up sensor as default.
  unfoldable pub wakes : ℕ → Bool
  wakes t =
      t == platform.proximity
      || (t == platform.significant_motion
          || (t == platform.tilt_detector
              || (t == platform.wake_gesture
                  || (t == platform.glance_gesture || t == platform.pick_up_gesture))))

  -- The test of the loop, for the sensor at an index.
  abbrev pub suits : ℕ → List Sensor → ℕ → Bool
  suits t sensors i =
      let s = get_or sensors i (record { type = 0; wake_up = false }) in
      s.type == t && same s.wake_up (wakes t)

  -- The loop, from index `i` on, for `n` sensors.
  unfoldable pub search : ℕ → List Sensor → ℕ → World → ℕ → ℕ → Option ℕ
  search t sensors list w i zero = none
  search t sensors list w i (suc n) =
      let p = load w list i in
      let rest = search t sensors list w (suc i) n in if suits t sensors p then some p else rest

  -- getDefaultSensor: the index of the sensor, or NULL.
  unfoldable pub get_default_sensor : ℕ → SensorManager → World → Option ℕ × SensorManager × World
  unfolding assert_state_locked
  get_default_sensor t m w =
      let (err, m', w') = assert_state_locked m w in
      (if is_ok err then search t m'.sensors m'.list w' 0 (length m'.sensors) else none, m', w')

  -- createEventQueue with at most the given number of rounds of its loop: the connection of the new
  -- queue, 0 for no queue; `none` when the rounds are used up.
  unfoldable pub create_event_queue : ℕ → SensorManager → World → Option (ℕ × SensorManager × World)
  unfolding assert_state_locked
  create_event_queue zero m w = none
  create_event_queue (suc n) m w =
      let (err, m1, w1) = assert_state_locked m w in
      let (connection, w2) = create_connection m1.server w1 in
      let rest = create_event_queue n m1 w2 in
      if is_ok err
      then (if connection == 0 then rest else some (connection, m1, w2))
      else some (0, m1, w1)
