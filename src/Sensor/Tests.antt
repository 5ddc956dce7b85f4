-- ===== src/Sensor/Tests.antt =====
-- Two accelerometers over whole numbers, of which the second has a name.
use lumi_os.Base.{
  ℕ, ◌*◌, ◌≡◌, refl, true, false, Option, none, some, List, [], ◌∷◌, pos, Text, codes, text_eq,
  contains, starts, strstr, if◌then◌else◌, ltb, ◌==◌,
}
use lumi_os.Sensor.{accel, vec3, Sysfs, detect_type, sensord_init}
use lumi_os.Sensor.Reader.{sensor_enable, sensor_read}
use lumi_os.Sensor.Shutdown.{active_at, sensord_shutdown}
use lumi_os.Sensor.Shutdown.Inactive.{enable, poll, perform_each, sensord_shutdown-inactive}

abbrev file_of : Text → Option Text
file_of path =
    if text_eq path (codes "/sys/bus/iio/devices/iio:device0/in_accel_x_raw")
    then some (codes "12\n")
    else if text_eq path (codes "/sys/bus/iio/devices/iio:device1/name")
    then some (codes "lsm-accel\n")
    else none

abbrev sysfs : Sysfs ℕ
sysfs = record {
  file = file_of;
  value = λ p. if contains (codes "_raw") p then some 12 else none;
  writable = λ p. true;
  nought = 0;
  one = 1;
  is_zero = λ n. n == 0;
  is_positive = λ n. ltb 0 n;
  times = λ a b. a * b;
  to_u32 = λ n. n;
}

abbrev entries : Option (List Text)
entries = some (codes "trigger0" ∷ codes "iio:device0" ∷ codes "iio:device1" ∷ [])

sensord_shutdown-inactive_example :
    let ops = enable accel (pos 50) ∷ poll 3 4 ∷ [] in
    let s = sensord_shutdown sysfs (perform_each sysfs ops (sensord_init sysfs entries)) in
    active_at s.sensors 0 ≡ false
sensord_shutdown-inactive_example =
    sensord_shutdown-inactive sysfs entries (enable accel (pos 50) ∷ poll 3 4 ∷ []) 0

-- The first of the type is enabled.
first_active :
    active_at
      (perform_each sysfs (enable accel (pos 50) ∷ []) (sensord_init sysfs entries)).sensors
      0
    ≡ true
unfolding sensor_enable sensord_init text_eq
first_active = refl

second_inactive :
    active_at
      (perform_each sysfs (enable accel (pos 50) ∷ []) (sensord_init sysfs entries)).sensors
      1
    ≡ false
unfolding sensor_enable sensord_init text_eq
second_inactive = refl

-- A device that no file and no name tells is an accelerometer.
fallback : detect_type sysfs (codes "/sys/bus/iio/devices/iio:device7") ≡ accel
unfolding detect_type text_eq
fallback = refl

read_accel :
    (sensor_read sysfs 5 accel (sensord_init sysfs entries)).1
    ≡ some (record { type = accel; timestamp = 5; reading = vec3 12 12 12 })
unfolding sensor_read sensord_init text_eq contains strstr starts
read_accel = refl
