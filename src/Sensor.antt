-- ===== src/Sensor.antt =====
-- The sensor daemon of system/services/sensord: enumerate.c, and sensord_init of sensord.c;
-- its children are reader.c, fusion.c, and sensord_shutdown with what it leaves.
--
-- sysfs is a parameter: the bytes of a file (none where it cannot be opened), what fscanf reads of
-- it as a float, and whether it can be opened for writing. A float is a value of any type. What is
-- printed is left out.

pub mod Fusion
pub mod Reader
pub mod Shutdown
mod Tests
use lumi_os.Base.{
  ℕ, zero, suc, ◌+◌, ◌-◌, Bool, true, false, Option, none, some, List, [], ◌∷◌, ◌++◌, ℤ, pos, neg,
  Text, codes, contains, starts, lines, lines_from, split_at, chomp, if◌then◌else◌, ltb, ◌==◌,
  length, take, set,
}

pub data SensorType : Type 0 where
  accel gyro magnet light proximity pressure temperature humidity gravity rotation : SensorType
  step_counter : SensorType

abbrev number_of : SensorType → ℕ
number_of accel = 0
number_of gyro = 1
number_of magnet = 2
number_of light = 3
number_of proximity = 4
number_of pressure = 5
number_of temperature = 6
number_of humidity = 7
number_of gravity = 8
number_of rotation = 9
number_of step_counter = 10

abbrev pub same_type : SensorType → SensorType → Bool
same_type a b = number_of a == number_of b

-- resolution, max_range and min_delay_us stay 0.
pub record SensorInfo : Type 0 where
  pub type : SensorType
  pub name : Text
  pub iio_path : Text
  pub active : Bool
  pub rate_hz : ℤ

-- The member of the union that is set.
pub data Reading (F : Type 0) : Type 0 where
  unset : Reading F
  vec3 : F → F → F → Reading F
  scalar : F → Reading F
  steps : ℕ → Reading F

pub record SensorEvent (F : Type 0) : Type 0 where
  pub type : SensorType
  pub timestamp : ℕ
  pub reading : Reading F

pub record Sensord (F : Type 0) : Type 0 where
  pub sensors : List SensorInfo
  pub last_events : List (Option (SensorEvent F))
  pub running : Bool

pub record Sysfs (F : Type 0) : Type 0 where
  pub file : Text → Option Text
  pub value : Text → Option F
  pub writable : Text → Bool
  pub nought : F
  pub one : F
  pub is_zero : F → Bool
  pub is_positive : F → Bool
  pub times : F → F → F
  pub to_u32 : F → ℕ

abbrev pub max_devices : ℕ
max_devices = 16

-- snprintf (path, 256, "%s/<file>", iio_path)
abbrev pub path_of : Text → Text → Text
path_of iio_path file = take 255 (iio_path ++ (codes "/" ++ file))

module _ {F : Type 0} (y : Sysfs F) where
  is_file : Text → Bool
  is_file path = elim (y.file path) [ none ↦ false | some bytes ↦ true ]

  -- The first file that is there tells the type.
  probe : Text → List (Text × SensorType) → Option SensorType
  unfolding is_file
  probe iio_path [] = none
  probe iio_path ((file, type) ∷ rest) =
      let more = probe iio_path rest in if is_file (path_of iio_path file) then some type else more

  raw_files : List (Text × SensorType)
  raw_files =
      (codes "in_accel_x_raw", accel)
      ∷ (codes "in_anglvel_x_raw", gyro)
      ∷ (codes "in_magn_x_raw", magnet)
      ∷ (codes "in_illuminance_raw", light)
      ∷ (codes "in_proximity_raw", proximity)
      ∷ (codes "in_pressure_raw", pressure)
      ∷ (codes "in_temp_raw", temperature)
      ∷ (codes "in_humidityrelative_raw", humidity)
      ∷ (codes "in_steps_input", step_counter)
      ∷ []

  -- The words that are looked for in the first line of the file `name`.
  type_by_name : Text → SensorType
  unfolding contains
  type_by_name line =
      if contains (codes "accel") line
      then accel
      else if contains (codes "gyro") line
      then gyro
      else if contains (codes "magn") line
      then magnet
      else if contains (codes "light") line
      then light
      else if contains (codes "prox") line
      then proximity
      else accel

  first_line : ℕ → Text → Option Text
  unfolding lines lines_from
  first_line size bytes = elim (lines size bytes) [ [] ↦ none | l ∷ ls ↦ some l ]

  pub detect_type : Text → SensorType
  unfolding probe raw_files type_by_name first_line
  detect_type iio_path = elim (probe iio_path raw_files) [
    | some type ↦ type
    | none ↦ elim (y.file (path_of iio_path (codes "name"))) [
      | none ↦ accel
      | some bytes ↦ elim (first_line 64 bytes) [ none ↦ accel | some line ↦ type_by_name line ]
    ]
  ]

  name_of : Text → Text → Text
  unfolding first_line chomp split_at
  name_of entry iio_path = elim (y.file (path_of iio_path (codes "name"))) [
    | none ↦ take 63 entry
    | some bytes ↦ elim (first_line 64 bytes) [ none ↦ [] | some line ↦ chomp line ]
  ]

  pub sensor_of : Text → SensorInfo
  unfolding detect_type name_of
  sensor_of entry =
      let iio_path = take 127 (codes "/sys/bus/iio/devices/" ++ entry) in
      record {
        type = detect_type iio_path;
        name = name_of entry iio_path;
        iio_path = iio_path;
        active = false;
        rate_hz = pos 0;
      }

  -- The entries of the directory, with room for `max` more sensors.
  pub enumerate : ℕ → List Text → List SensorInfo
  unfolding sensor_of starts
  enumerate max [] = []
  enumerate zero (e ∷ es) = []
  enumerate (suc max) (e ∷ es) = elim (starts (codes "iio:device") e) [
    | true ↦ sensor_of e ∷ enumerate max es
    | false ↦ enumerate (suc max) es
  ]

  -- None where opendir fails.
  pub sensor_enumerate : Option (List Text) → ℕ → List SensorInfo
  unfolding enumerate
  sensor_enumerate none max = []
  sensor_enumerate (some entries) max = enumerate max entries

  no_events : ℕ → List (Option (SensorEvent F))
  no_events zero = []
  no_events (suc n) = none ∷ no_events n

  pub sensord_init : Option (List Text) → Sensord F
  unfolding sensor_enumerate no_events
  sensord_init entries = record {
    sensors = sensor_enumerate entries max_devices;
    last_events = no_events max_devices;
    running = true;
  }
