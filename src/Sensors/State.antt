-- ===== src/Sensors/State.antt =====
-- The states that a SensorManager reaches, with the arrays that are allocated.
use android_device_xiaomi_la.Common.{
  ℕ, zero, suc, ◌≡◌, ◌⊎◌, true, is_some, inl, inr, refl, Option-cases, List, [], ◌∷◌, Option, none,
  some, arith, ◌==◌, Bool-cases, is_ok,
}
use android_device_xiaomi_la.Sensors.Manager.{
  Platform, IsService, SensorManager, unconnected, sensor_manager_died, destroy,
  assert_state_locked, create, get_sensor_list, get_default_sensor, create_event_queue,
}
use android_device_xiaomi_la.Sensors.Memory.{IsMemory}
use android_device_xiaomi_la.Sensors.Valid.{
  IsValid, IsValid-SameArrays, assert_lem, sensor_manager_died-IsValid, extent-free_list,
  free_allowed,
}

-- What the service's clients call, with the death of the service in between.
pub data Call : Type 0 where
  dies : Call
  gets_list : Call
  gets_default : ℕ → Call
  -- with the number of rounds that its loop is given
  creates_queue : ℕ → Call

module _ (platform : Platform) where
  open platform use {World}

  -- The state after a call; a loop that has used up its rounds is left with the lock still held, so
  -- that no later call is made.
  unfoldable pub step : Call → SensorManager × World → Option (SensorManager × World)
  unfolding get_sensor_list get_default_sensor
  step dies (m, w) = some (sensor_manager_died platform m w)
  step (gets_list) (m, w) = let (_, _, _, m', w') = get_sensor_list platform m w in some (m', w')
  step (gets_default t) (m, w) =
      let (_, m', w') = get_default_sensor platform t m w in some (m', w')
  step (creates_queue n) (m, w) = elim (create_event_queue platform n m w) [
    | none ↦ none
    | some (_, m', w') ↦ some (m', w')
  ]

  unfoldable pub run : List Call → SensorManager × World → Option (SensorManager × World)
  run [] s = some s
  run (c ∷ cs) s = elim (step c s) [ none ↦ none | some s' ↦ run cs s' ]

module _ (platform : Platform) (service : IsService platform) (memory : IsMemory platform) where
  open platform use {World, create_connection}
  open memory use {extent, extent_null, same-create_connection}

  create_event_queue-IsValid :
      (n : ℕ) (origin : World) (m : SensorManager) (w : World)
      → IsValid platform memory origin m w
      → (out : ℕ × SensorManager × World) → create_event_queue platform n m w ≡ some out
      → IsValid platform memory origin out.1 out.2
  unfolding create_event_queue
  create_event_queue-IsValid zero origin m w v out e = ground arith
  create_event_queue-IsValid (suc n) origin m w v out e =
      let got = assert_state_locked platform m w in
      let made = create_connection got.1.server got.2 in
      let a = assert_lem platform service memory origin m w v in
      let valid =
        IsValid-SameArrays platform service memory origin got.1 got.2 made.1 a.0
          (same-create_connection got.1.server got.2) in
      elim (Bool-cases (is_ok got.0)) [
        | inr bad ↦ ground arith
        | inl good ↦ elim (Bool-cases (made.0 == 0)) [
          | inl z ↦ create_event_queue-IsValid n origin got.1 made.1 valid out (ground arith)
          | inr nz ↦ ground arith
        ]
      ]

  step-IsValid :
      (c : Call) (origin : World) (m : SensorManager) (w : World) (out : SensorManager × World)
      → IsValid platform memory origin m w
      → step platform c (m, w) ≡ some out
      → IsValid platform memory origin out.0 out.1
  unfolding step get_sensor_list get_default_sensor
  step-IsValid dies origin m w out v e =
      ground (arith, sensor_manager_died-IsValid platform service memory origin m w v)
  step-IsValid gets_list origin m w out v e =
      ground (arith, assert_lem platform service memory origin m w v)
  step-IsValid (gets_default t) origin m w out v e =
      ground (arith, assert_lem platform service memory origin m w v)
  step-IsValid (creates_queue n) origin m w out v e =
      elim (Option-cases (create_event_queue platform n m w)) [
        | inl z ↦ ground arith
        | inr (r, z) ↦ let valid = create_event_queue-IsValid n origin m w v r z in ground arith
      ]

  run-IsValid_from :
      (cs : List Call) (origin : World) (s out : SensorManager × World)
      → IsValid platform memory origin s.0 s.1
      → run platform cs s ≡ some out
      → IsValid platform memory origin out.0 out.1
  unfolding run
  run-IsValid_from [] origin s out v e = ground arith
  run-IsValid_from (c ∷ cs) origin (m, w) out v e = elim (Option-cases (step platform c (m, w))) [
    | inl z ↦ ground arith
    | inr (s', z) ↦
        run-IsValid_from cs origin s' out (step-IsValid c origin m w s' v z) (ground arith)
  ]

  -- From the construction of the manager on, after any sequence of calls and deaths of the service
  -- that comes to its end, there is no service, no sensor and no array, or there is a service and
  -- the array has one pointer for each sensor, in order. Beside the arrays that were allocated
  -- before, only this one is, with an element for each sensor.
  pub run-IsValid :
      (cs : List Call) (w : World) (out : SensorManager × World)
      → run platform cs (create platform w) ≡ some out
      → IsValid platform memory w out.0 out.1
  unfolding create
  run-IsValid cs w out e =
      run-IsValid_from cs w (create platform w) out
        (assert_lem platform service memory w unconnected w (record {
          loaded = inl (refl, refl, refl);
          given = inr refl;
          owned = λ q nz. ground (arith, extent_null w);
          fresh = extent_null w;
        })).0
        e

  -- After any sequence of calls and deaths of the service that comes to its end, what a further
  -- death of the service or the destructor frees is NULL or an array that is allocated; and the
  -- destructor leaves the arrays that were allocated before the construction, and no other.
  pub run-destroy :
      (cs : List Call) (w : World) (out : SensorManager × World)
      → run platform cs (create platform w) ≡ some out
      → ((out.0.list ≡ 0) ⊎ (is_some (extent out.1 out.0.list) ≡ true))
        × ((q : ℕ) → extent (destroy platform out.0 out.1) q ≡ extent w q)
  unfolding destroy
  run-destroy cs w (m, w') e =
      let v = run-IsValid cs w (m, w') e in
      (
        free_allowed platform service memory w m w' v,
        λ q. elim (Bool-cases (q == 0)) [
          | inl z ↦ ground (arith, extent_null w, extent_null (platform.free m.list w'))
          | inr nz ↦ extent-free_list platform service memory w m w' q v (ground arith)
        ],
      )
