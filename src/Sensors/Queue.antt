-- ===== src/Sensors/Queue.antt =====
-- The loop of createEventQueue: it ends when the service gives a connection. It holds mLock, which
-- sensorManagerDied takes first, so the service cannot be cleared meanwhile.
use android_device_xiaomi_la.Common.{ℕ, zero, suc, ◌≡◌, ◌≢◌, ◌<◌, some, none, arith}
use android_device_xiaomi_la.Sensors.Manager.{
  Platform, SensorManager, assert_state_locked, create_event_queue,
}

module _ (platform : Platform) where
  open platform use {World, create_connection}

  -- The world after `k` requests for a connection.
  abbrev pub after : ℕ → ℕ → World → World
  after server zero w = w
  after server (suc k) w = after server k (create_connection server w).1

  -- With a service that is known and gives a connection after `k` refusals, `k + 1` rounds are
  -- enough: the queue has that connection, and the manager is as before.
  pub create_event_queue_returns :
      (k n : ℕ) (m : SensorManager) (w : World)
      → k < n
      → m.server ≢ 0
      → ((j : ℕ) → j < k → (create_connection m.server (after m.server j w)).0 ≡ 0)
      → (create_connection m.server (after m.server k w)).0 ≢ 0
      → create_event_queue platform n m w
        ≡ some (
          (create_connection m.server (after m.server k w)).0,
          m,
          (create_connection m.server (after m.server k w)).1,
        )
  unfolding create_event_queue assert_state_locked
  create_event_queue_returns k zero m w kn known refused given = ground arith
  create_event_queue_returns zero (suc n) m w kn known refused given = ground arith
  create_event_queue_returns (suc k) (suc n) m w kn known refused given =
      let first = refused 0 (ground arith) in
      let rest =
        create_event_queue_returns k n m (create_connection m.server w).1 (ground arith) known
          (λ j h. refused (suc j) (ground arith)) given in
      ground (arith, first, rest)

  -- With a service that is known and never gives a connection again, the loop never ends, whatever
  -- number of rounds it is given.
  pub create_event_queue_spins :
      (n : ℕ) (m : SensorManager) (w : World)
      → m.server ≢ 0
      → ((v : World) → (create_connection m.server v).0 ≡ 0)
      → create_event_queue platform n m w ≡ none
  unfolding create_event_queue assert_state_locked
  create_event_queue_spins zero m w known dead = ground arith
  create_event_queue_spins (suc n) m w known dead =
      ground
        (arith, dead w, create_event_queue_spins n m (create_connection m.server w).1 known dead)
