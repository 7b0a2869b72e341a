-- ===== src/Power/Sysfs.antt =====
-- libpower/power.c: sysfs_write and sysfs_read, and the writes of the hints by means of them. The
-- system calls are recorded, the last one first, and what the kernel answers may depend on all that
-- was asked before.
use android_device_xiaomi_la.Common.{
  ℕ, suc, ◌+◌, ◌-◌, ◌%◌, Bool, true, false, List, [], ◌∷◌, Option, none, some, length, ◌==◌,
  if◌then◌else◌, word, Text, text,
}
use android_device_xiaomi_la.Power.Hints.{Write, pulse, freq}

-- open with O_WRONLY or O_RDONLY; write; read of so many bytes at most; close.
pub data Effect : Type 0 where
  opens_to_write opens_to_read : Text → Option ℕ → Effect
  writes : ℕ → Text → Option ℕ → Effect
  reads : ℕ → ℕ → Option Text → Effect
  closes : ℕ → Effect

abbrev pub Log : Type 0
Log = List Effect

-- `none` is a negative answer.
pub record Kernel : Type 0 where
  pub open_to_write : Text → Log → Option ℕ
  pub open_to_read : Text → Log → Option ℕ
  pub write : ℕ → Text → Log → Option ℕ
  pub read : ℕ → ℕ → Log → Option Text

-- TOUCHBOOST_PULSE_SYSFS, TOUCHBOOST_SYSFS and, as Android.mk sets it, INTEL_TOUCHBOOST_FREQ
abbrev pub touchboost_pulse_sysfs : Text
touchboost_pulse_sysfs = text "/sys/devices/system/cpu/cpufreq/interactive/touchboostpulse"

abbrev pub touchboost_sysfs : Text
touchboost_sysfs = text "/sys/devices/system/cpu/cpufreq/interactive/touchboost_freq"

abbrev pub intel_touchboost_freq : Text
intel_touchboost_freq = text "2240000"

-- A read stores its bytes from an offset of the buffer on.
abbrev pub store : ℕ → Text → (ℕ → ℕ) → ℕ → ℕ
store i [] p = p
store i (b ∷ bytes) p = store (suc i) bytes (λ k. if k == i then b else p k)

module _ (kernel : Kernel) where
  unfoldable pub sysfs_write : Text → Text → Log → Log
  sysfs_write path s log =
      let fd = kernel.open_to_write path log in
      elim fd [
        | none ↦ opens_to_write path none ∷ log
        | some d ↦
            let log1 = opens_to_write path (some d) ∷ log in
            closes d ∷ writes d s (kernel.write d s log1) ∷ log1
      ]

  -- The result, `true` for 0, and the buffer `s`; `num_bytes - 1` becomes a size_t.
  unfoldable pub sysfs_read : Text → (ℕ → ℕ) → ℕ → Log → Bool × (ℕ → ℕ) × Log
  sysfs_read path s num_bytes log =
      let fd = kernel.open_to_read path log in
      elim fd [
        | none ↦ (false, s, opens_to_read path none ∷ log)
        | some d ↦
            let log1 = opens_to_read path (some d) ∷ log in
            let size = (num_bytes + (word - 1)) % word in
            elim (kernel.read d size log1) [
              | none ↦ (false, s, closes d ∷ reads d size none ∷ log1)
              | some bytes ↦ (
                true,
                (λ k. if k == length bytes then 0 else store 0 bytes s k),
                closes d ∷ reads d size (some bytes) ∷ log1,
              )
            ]
      ]

  -- The calls of sysfs_write in the hints and in intel_power_init.
  unfoldable pub perform : Write → Log → Log
  unfolding sysfs_write
  perform pulse log = sysfs_write touchboost_pulse_sysfs (text "1") log
  perform freq log = sysfs_write touchboost_sysfs intel_touchboost_freq log

  -- All writes, the last one first.
  unfoldable pub perform_all : List Write → Log → Log
  unfolding perform
  perform_all [] log = log
  perform_all (w ∷ ws) log = perform w (perform_all ws log)
