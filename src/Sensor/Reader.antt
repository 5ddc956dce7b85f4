-- ===== src/Sensor/Reader.antt =====
-- reader.c of system/services/sensord/src.
use lumi_os.Base.{
  ℕ, zero, suc, true, false, Option, none, some, List, [], ◌∷◌, ◌++◌, ℤ, pos, neg, Text, codes,
  if◌then◌else◌,
}
use lumi_os.Sensor.{
  SensorType, accel, gyro, magnet, light, proximity, pressure, temperature, humidity, gravity,
  rotation, step_counter, same_type, SensorInfo, Reading, unset, vec3, scalar, steps, SensorEvent,
  Sensord, Sysfs, path_of,
}

-- find_sensor: the first sensor of the type, and the assignments to it.
unfoldable pub find_sensor : SensorType → List SensorInfo → Option SensorInfo
find_sensor type [] = none
find_sensor type (x ∷ xs) =
    let rest = find_sensor type xs in if same_type x.type type then some x else rest

unfoldable pub update_sensor :
    (SensorInfo → SensorInfo) → SensorType → List SensorInfo → List SensorInfo
update_sensor f type [] = []
update_sensor f type (x ∷ xs) =
    let rest = update_sensor f type xs in if same_type x.type type then f x ∷ xs else x ∷ rest

unfoldable pub enabled : ℤ → SensorInfo → SensorInfo
enabled rate_hz x = record x { active = true; rate_hz = rate_hz }

unfoldable pub disabled : SensorInfo → SensorInfo
disabled x = record x { active = false; rate_hz = pos 0 }

-- What is written to a file of sysfs: the number with %d.
abbrev pub Write : Type 0
Write = Text × ℤ

module _ {F : Type 0} (y : Sysfs F) where
  write_to : Text → ℤ → List Write
  write_to path n = if y.writable path then (path, n) ∷ [] else []

  unfoldable pub sensor_enable : SensorType → ℤ → Sensord F → ℤ × Sensord F × List Write
  unfolding find_sensor update_sensor enabled write_to
  sensor_enable type rate_hz s = elim (find_sensor type s.sensors) [
    | none ↦ (neg 1, s, [])
    | some x ↦ (
      pos 0,
      record s { sensors = update_sensor (enabled rate_hz) type s.sensors },
      write_to (path_of x.iio_path (codes "sampling_frequency")) rate_hz
          ++ write_to (path_of x.iio_path (codes "buffer/enable")) (pos 1),
    )
  ]

  unfoldable pub sensor_disable : SensorType → Sensord F → ℤ × Sensord F × List Write
  unfolding find_sensor update_sensor disabled write_to
  sensor_disable type s = elim (find_sensor type s.sensors) [
    | none ↦ (neg 1, s, [])
    | some x ↦ (
      pos 0,
      record s { sensors = update_sensor disabled type s.sensors },
      write_to (path_of x.iio_path (codes "buffer/enable")) (pos 0),
    )
  ]

  pub read_iio_float : Text → Text → F
  read_iio_float iio_path file = elim (y.value (path_of iio_path file)) [
    | none ↦ y.nought
    | some v ↦ v
  ]

  -- Three axes with one scale, 1 where it reads as 0.
  read_axes : Text → Text → Reading F
  unfolding read_iio_float
  read_axes path part =
      let read = read_iio_float path (part ++ codes "_scale") in
      let scale = if y.is_zero read then y.one else read in
      vec3 (y.times (read_iio_float path (part ++ codes "_x_raw")) scale)
        (y.times (read_iio_float path (part ++ codes "_y_raw")) scale)
        (y.times (read_iio_float path (part ++ codes "_z_raw")) scale)

  read_scaled : Text → Text → Reading F
  unfolding read_iio_float
  read_scaled path part =
      let raw = read_iio_float path (part ++ codes "_raw") in
      let scale = read_iio_float path (part ++ codes "_scale") in
      scalar (if y.is_positive scale then y.times raw scale else raw)

  -- The switch; none is its default.
  pub read_as : SensorType → Text → Option (Reading F)
  unfolding read_axes read_scaled read_iio_float
  read_as accel path = some (read_axes path (codes "in_accel"))
  read_as gyro path = some (read_axes path (codes "in_anglvel"))
  read_as magnet path = some (read_axes path (codes "in_magn"))
  read_as light path = some (read_scaled path (codes "in_illuminance"))
  read_as proximity path = some (scalar (read_iio_float path (codes "in_proximity_raw")))
  read_as pressure path = some (read_scaled path (codes "in_pressure"))
  read_as temperature path = some (read_scaled path (codes "in_temp"))
  read_as humidity path = some (scalar (read_iio_float path (codes "in_humidityrelative_raw")))
  read_as step_counter path = some (steps (y.to_u32 (read_iio_float path (codes "in_steps_input"))))
  read_as gravity path = none
  read_as rotation path = none

  cache :
      SensorType
      → SensorEvent F
      → List SensorInfo
      → List (Option (SensorEvent F))
      → List (Option (SensorEvent F))
  cache type e [] ls = ls
  cache type e (x ∷ xs) [] = []
  cache type e (x ∷ xs) (l ∷ ls) =
      let rest = cache type e xs ls in if same_type x.type type then some e ∷ ls else l ∷ rest

  -- The result and the event, at the time `now`; the event is none where nothing is written to it.
  unfoldable pub sensor_read : ℕ → SensorType → Sensord F → ℤ × Option (SensorEvent F) × Sensord F
  unfolding find_sensor read_as cache
  sensor_read now type s = elim (find_sensor type s.sensors) [
    | none ↦ (neg 1, none, s)
    | some x ↦ elim (read_as type x.iio_path) [
      | none ↦ (neg 1, some (record { type = type; timestamp = now; reading = unset }), s)
      | some r ↦
          let e : SensorEvent F = record { type = type; timestamp = now; reading = r } in
          (pos 0, some e, record s { last_events = cache type e s.sensors s.last_events })
    ]
  ]

  -- The loop over the sensors, with room for `max` more events: the result of sensor_read is not
  -- looked at.
  unfoldable pub poll_each :
      ℕ → ℕ → List SensorInfo → Sensord F → List (Option (SensorEvent F)) × Sensord F
  unfolding sensor_read
  poll_each now max [] s = ([], s)
  poll_each now zero (x ∷ xs) s = ([], s)
  poll_each now (suc max) (x ∷ xs) s = elim x.active [
    | true ↦
        let (code, e, t) = sensor_read now x.type s in
        let (es, u) = poll_each now max xs t in (e ∷ es, u)
    | false ↦ poll_each now (suc max) xs s
  ]

  unfoldable pub sensor_poll : ℕ → ℕ → Sensord F → List (Option (SensorEvent F)) × Sensord F
  unfolding poll_each
  sensor_poll now max s = poll_each now max s.sensors s
