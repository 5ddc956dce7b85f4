-- ===== src/Sensor/Shutdown/Inactive.antt =====
-- No sensor is active after sensord_shutdown.
use lumi_os.Base.{
  ==_iff, ℕ, zero, suc, ◌+◌, ◌<◌, ◌≤◌, ◌≡◌, refl, sym, subst, ◌∙◌, inl, inr, false, Option, none,
  some, List, [], ◌∷◌, ℤ, Text, ◌==◌, ltb, starts, codes, length, Bool-cases, Option-cases, arith,
}
use lumi_os.Sensor.{
  SensorType, SensorInfo, Sensord, Sysfs, enumerate, sensor_enumerate, sensord_init, sensor_of,
  max_devices,
}
use lumi_os.Sensor.Reader.{
  find_sensor, update_sensor, enabled, disabled, sensor_enable, sensor_disable,
}
use lumi_os.Sensor.Reader.{sensor_read, poll_each, sensor_poll}
use lumi_os.Sensor.Shutdown.{active_at, type_at, disable_at, disable_from, sensord_shutdown}
use lumi_os.Sensor.Shutdown.Fresh.{Fresh, disabled_at, Fresh-disabled, Fresh-enabled, disabled_only}

update_none :
    (f : SensorInfo → SensorInfo) (t : SensorType) (xs : List SensorInfo)
    → find_sensor t xs ≡ none
    → update_sensor f t xs ≡ xs
unfolding find_sensor update_sensor
update_none f t [] h = refl
update_none f t (x ∷ xs) h = ground (arith, update_none f t xs)

module _ {F : Type 0} (y : Sysfs F) where
  sensor_disable-sensors :
      (t : SensorType) (s : Sensord F)
      → (sensor_disable y t s).1.sensors ≡ update_sensor disabled t s.sensors
  unfolding sensor_disable
  sensor_disable-sensors t s = elim (Option-cases (find_sensor t s.sensors)) [
    | inl e ↦ rw (e, sensor_disable) (sym (update_none disabled t s.sensors e))
    | inr found ↦ rw (found.1, sensor_disable) refl
  ]

  sensor_enable-sensors :
      (t : SensorType) (rate : ℤ) (s : Sensord F)
      → (sensor_enable y t rate s).1.sensors ≡ update_sensor (enabled rate) t s.sensors
  unfolding sensor_enable
  sensor_enable-sensors t rate s = elim (Option-cases (find_sensor t s.sensors)) [
    | inl e ↦ rw (e, sensor_enable) (sym (update_none (enabled rate) t s.sensors e))
    | inr found ↦ rw (found.1, sensor_enable) refl
  ]

  sensor_read-sensors :
      (now : ℕ) (t : SensorType) (s : Sensord F) → (sensor_read y now t s).2.sensors ≡ s.sensors
  unfolding sensor_read
  sensor_read-sensors now t s = ground arith

  poll_each-sensors :
      (now max : ℕ) (xs : List SensorInfo) (s : Sensord F)
      → (poll_each y now max xs s).1.sensors ≡ s.sensors
  unfolding poll_each
  poll_each-sensors now max [] s = refl
  poll_each-sensors now zero (x ∷ xs) s = refl
  poll_each-sensors now (suc max) (x ∷ xs) s = elim (Bool-cases x.active) [
    | inl e ↦
        rw (e, poll_each)
          (poll_each-sensors now max xs (sensor_read y now x.type s).2
            ∙ sensor_read-sensors now x.type s)
    | inr e ↦ rw (e, poll_each) (poll_each-sensors now (suc max) xs s)
  ]

  disable_at-Fresh :
      (i : ℕ) (s : Sensord F) → Fresh [] s.sensors → Fresh [] (disable_at y i s).sensors
  unfolding disable_at
  disable_at-Fresh i s h = elim (Bool-cases (active_at s.sensors i)) [
    | inl e ↦
        rw (e, disable_at, sensor_disable-sensors (type_at s.sensors i) s)
          (Fresh-disabled [] (type_at s.sensors i) s.sensors h)
    | inr e ↦ rw (e, disable_at) h
  ]

  disable_at-off :
      (i : ℕ) (s : Sensord F) → Fresh [] s.sensors → active_at (disable_at y i s).sensors i ≡ false
  unfolding disable_at
  disable_at-off i s h = elim (Bool-cases (active_at s.sensors i)) [
    | inl e ↦
        rw (e, disable_at, sensor_disable-sensors (type_at s.sensors i) s)
          (disabled_at [] s.sensors i h e)
    | inr e ↦ rw (e, disable_at) e
  ]

  disable_at-only :
      (i j : ℕ) (s : Sensord F)
      → active_at s.sensors j ≡ false
      → active_at (disable_at y i s).sensors j ≡ false
  unfolding disable_at
  disable_at-only i j s h = elim (Bool-cases (active_at s.sensors i)) [
    | inl e ↦
        rw (e, disable_at, sensor_disable-sensors (type_at s.sensors i) s)
          (disabled_only (type_at s.sensors i) s.sensors j h)
    | inr e ↦ rw (e, disable_at) h
  ]

  disable_from-only :
      (rounds i j : ℕ) (s : Sensord F)
      → active_at s.sensors j ≡ false
      → active_at (disable_from y rounds i s).sensors j ≡ false
  unfolding disable_from
  disable_from-only zero i j s h = h
  disable_from-only (suc rounds) i j s h =
      disable_from-only rounds (suc i) j (disable_at y i s) (disable_at-only i j s h)

  disable_from-off :
      (rounds i j : ℕ) (s : Sensord F)
      → Fresh [] s.sensors
      → i ≤ j
      → j < i + rounds
      → active_at (disable_from y rounds i s).sensors j ≡ false
  unfolding disable_from
  disable_from-off zero i j s h lo hi = absurd (omega arith)
  disable_from-off (suc rounds) i j s h lo hi = elim (Bool-cases (i == j)) [
    | inl e ↦ disable_from-only rounds (suc i) j (disable_at y i s) (
        subst (λ (k : ℕ). active_at (disable_at y i s).sensors k ≡ false) ((==_iff i j).0 e)
          (disable_at-off i s h))
    | inr e ↦
        disable_from-off rounds (suc i) j (disable_at y i s) (disable_at-Fresh i s h)
          (ground (arith, e)) (omega arith)
  ]

  beyond : (xs : List SensorInfo) (i : ℕ) → length xs ≤ i → active_at xs i ≡ false
  beyond [] i h = refl
  beyond (x ∷ xs) zero h = absurd (omega arith)
  beyond (x ∷ xs) (suc i) h = beyond xs i (omega arith)

  sensord_shutdown-off :
      (s : Sensord F) (j : ℕ)
      → Fresh [] s.sensors
      → active_at (sensord_shutdown y s).sensors j ≡ false
  unfolding sensord_shutdown
  sensord_shutdown-off s j h = elim (Bool-cases (ltb j (length s.sensors))) [
    | inl e ↦
        disable_from-off (length s.sensors) 0 j (record s { running = false }) h (omega arith)
          (ground (arith, e))
    | inr e ↦
        disable_from-only (length s.sensors) 0 j (record s { running = false })
          (beyond s.sensors j (ground (arith, e)))
  ]

  enumerate-Fresh :
      (seen : List SensorType) (max : ℕ) (es : List Text) → Fresh seen (enumerate y max es)
  unfolding enumerate sensor_of
  enumerate-Fresh seen max [] = tt
  enumerate-Fresh seen zero (e ∷ es) = tt
  enumerate-Fresh seen (suc max) (e ∷ es) = elim (Bool-cases (starts (codes "iio:device") e)) [
    | inl b ↦ rw (b, enumerate) (λ a. cc, enumerate-Fresh ((sensor_of y e).type ∷ seen) max es)
    | inr b ↦ rw (b, enumerate) (enumerate-Fresh seen (suc max) es)
  ]

  sensord_init-Fresh : (entries : Option (List Text)) → Fresh [] (sensord_init y entries).sensors
  unfolding sensord_init sensor_enumerate
  sensord_init-Fresh none = tt
  sensord_init-Fresh (some es) = enumerate-Fresh [] max_devices es

-- The functions of reader.c.
pub data Op : Type 0 where
  enable : SensorType → ℤ → Op
  disable : SensorType → Op
  read : ℕ → SensorType → Op
  poll : ℕ → ℕ → Op

module _ {F : Type 0} (y : Sysfs F) where
  abbrev pub perform : Op → Sensord F → Sensord F
  perform (enable t rate) s = (sensor_enable y t rate s).1
  perform (disable t) s = (sensor_disable y t s).1
  perform (read now t) s = (sensor_read y now t s).2
  perform (poll now max) s = (sensor_poll y now max s).1

  abbrev pub perform_each : List Op → Sensord F → Sensord F
  perform_each [] s = s
  perform_each (op ∷ ops) s = perform_each ops (perform op s)

  perform-Fresh : (op : Op) (s : Sensord F) → Fresh [] s.sensors → Fresh [] (perform op s).sensors
  unfolding sensor_poll
  perform-Fresh (enable t rate) s h =
      rw (sensor_enable-sensors y t rate s) (Fresh-enabled [] rate t s.sensors refl h)
  perform-Fresh (disable t) s h =
      rw (sensor_disable-sensors y t s) (Fresh-disabled [] t s.sensors h)
  perform-Fresh (read now t) s h = rw (sensor_read-sensors y now t s) h
  perform-Fresh (poll now max) s h = rw (poll_each-sensors y now max s.sensors s) h

  perform_each-Fresh :
      (ops : List Op) (s : Sensord F) → Fresh [] s.sensors → Fresh [] (perform_each ops s).sensors
  perform_each-Fresh [] s h = h
  perform_each-Fresh (op ∷ ops) s h = perform_each-Fresh ops (perform op s) (perform-Fresh op s h)

  -- Whatever sensors are found by sensord_init, several of one type among them, and whatever of them
  -- are enabled, disabled, read and polled: after sensord_shutdown, which disables by type, no
  -- sensor is active.
  pub sensord_shutdown-inactive :
      (entries : Option (List Text)) (ops : List Op) (i : ℕ)
      → active_at (sensord_shutdown y (perform_each ops (sensord_init y entries))).sensors i ≡ false
  sensord_shutdown-inactive entries ops i =
      sensord_shutdown-off y _ i (perform_each-Fresh ops _ (sensord_init-Fresh y entries))
