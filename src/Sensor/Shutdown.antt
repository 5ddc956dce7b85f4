-- ===== src/Sensor/Shutdown.antt =====
-- sensord_shutdown of system/services/sensord/src/sensord.c.
pub mod Fresh
pub mod Inactive
use lumi_os.Base.{
  ◌||◌, ℕ, zero, suc, ◌+◌, ◌<◌, ◌≤◌, ◌≡◌, refl, ap, ◌∙◌, ◌≢◌, ◌⊎◌, inl, inr, Bool, true, false,
  Option, none, some, List, [], ◌∷◌, ℤ, Text, In, if◌then◌else◌, ◌==◌, length, Bool-cases,
  Option-cases, arith,
}
use lumi_os.Sensor.{
  SensorType, accel, same_type, SensorInfo, Sensord, Sysfs, enumerate, sensor_enumerate,
  sensord_init, sensor_of, max_devices,
}
use lumi_os.Sensor.Reader.{
  find_sensor, update_sensor, enabled, disabled, Write, sensor_enable, sensor_disable,
}

abbrev pub active_at : List SensorInfo → ℕ → Bool
active_at [] i = false
active_at (x ∷ xs) zero = x.active
active_at (x ∷ xs) (suc i) = active_at xs i

abbrev pub type_at : List SensorInfo → ℕ → SensorType
type_at [] i = accel
type_at (x ∷ xs) zero = x.type
type_at (x ∷ xs) (suc i) = type_at xs i

module _ {F : Type 0} (y : Sysfs F) where
  -- The body of the loop of sensord_shutdown.
  pub disable_at : ℕ → Sensord F → Sensord F
  disable_at i s = if active_at s.sensors i then (sensor_disable y (type_at s.sensors i) s).1 else s

  -- The loop from the index `i` on.
  pub disable_from : ℕ → ℕ → Sensord F → Sensord F
  unfolding disable_at
  disable_from zero i s = s
  disable_from (suc rounds) i s = disable_from rounds (suc i) (disable_at i s)

  pub sensord_shutdown : Sensord F → Sensord F
  unfolding disable_from
  sensord_shutdown s = disable_from (length s.sensors) 0 (record s { running = false })
