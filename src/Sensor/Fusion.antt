-- ===== src/Sensor/Fusion.antt =====
-- system/services/sensord/src/fusion.c. Floats and the functions of math.h are a parameter. What is
-- printed is left out, and the pointers that a result is written to are not NULL.
pub mod Angles
mod Tests
use lumi_os.Base.{Bool, true, false, Option, none, some, if◌then◌else◌}

-- The constants are those of fusion.c; `over_pi` divides by M_PI.
pub record Maths (F : Type 0) : Type 0 where
  pub nought : F
  pub one : F
  pub earth : F
  pub minus_earth : F
  pub point_98 : F
  pub hundredth : F
  pub half_turn : F
  pub over_pi : F → F
  pub plus : F → F → F
  pub minus : F → F → F
  pub times : F → F → F
  pub negate : F → F
  pub sqrt : F → F
  pub sin : F → F
  pub cos : F → F
  pub atan2 : F → F → F

-- sensor_vec3_t
pub record Vec3 (F : Type 0) : Type 0 where
  pub x : F
  pub y : F
  pub z : F

pub record Fusion (F : Type 0) : Type 0 where
  pub pitch : F
  pub roll : F
  pub yaw : F
  pub gravity : Vec3 F
  pub rotation : Vec3 F
  pub initialized : Bool
  pub alpha : F

module _ {F : Type 0} (f : Maths F) where
  pub fusion_init : Fusion F
  fusion_init = record {
    pitch = f.nought;
    roll = f.nought;
    yaw = f.nought;
    gravity = record { x = f.nought; y = f.nought; z = f.earth };
    rotation = record { x = f.nought; y = f.nought; z = f.nought };
    initialized = false;
    alpha = f.point_98;
  }

  pub accel_pitch : Vec3 F → F
  accel_pitch a = f.atan2 (f.negate a.x) (f.sqrt (f.plus (f.times a.y a.y) (f.times a.z a.z)))

  pub accel_roll : Vec3 F → F
  accel_roll a = f.atan2 a.y a.z

  -- The first sample of the accelerometer.
  pub initialize : Vec3 F → Fusion F → Fusion F
  unfolding accel_pitch accel_roll
  initialize a s = if s.initialized then s else record s {
    pitch = accel_pitch a;
    roll = accel_roll a;
    yaw = f.nought;
    initialized = true;
  }

  -- alpha * a + (1.0f - alpha) * b
  pub blend : F → F → F → F
  blend alpha a b = f.plus (f.times alpha a) (f.times (f.minus f.one alpha) b)

  pub integrate : Vec3 F → Option (Vec3 F) → Fusion F → Fusion F
  unfolding accel_pitch accel_roll blend
  integrate a none s = record s { pitch = accel_pitch a; roll = accel_roll a }
  integrate a (some g) s = record s {
    pitch = blend s.alpha (f.plus s.pitch (f.times g.x f.hundredth)) (accel_pitch a);
    roll = blend s.alpha (f.plus s.roll (f.times g.y f.hundredth)) (accel_roll a);
    yaw = f.plus s.yaw (f.times g.z f.hundredth);
  }

  pub correct_yaw : Option (Vec3 F) → Fusion F → Fusion F
  unfolding blend
  correct_yaw none s = s
  correct_yaw (some m) s = record s { yaw = blend s.alpha s.yaw (f.atan2 (f.negate m.y) m.x) }

  pub gravity_at : F → F → Vec3 F
  gravity_at pitch roll = record {
    x = f.times f.minus_earth (f.sin pitch);
    y = f.times (f.times f.earth (f.sin roll)) (f.cos pitch);
    z = f.times (f.times f.earth (f.cos roll)) (f.cos pitch);
  }

  pub set_vectors : Fusion F → Fusion F
  unfolding gravity_at
  set_vectors s = record s {
    gravity = gravity_at s.pitch s.roll;
    rotation = record { x = s.pitch; y = s.roll; z = s.yaw };
  }

  -- The samples of the accelerometer, the gyroscope and the magnetometer.
  pub fusion_update : Option (Vec3 F) → Option (Vec3 F) → Option (Vec3 F) → Fusion F → Fusion F
  unfolding initialize integrate correct_yaw set_vectors
  fusion_update none gyro magnet s = s
  fusion_update (some a) gyro magnet s =
      set_vectors (correct_yaw magnet (integrate a gyro (initialize a s)))

  -- none stands for -1.
  pub fusion_get_orientation : Fusion F → Option (F × F × F)
  fusion_get_orientation s =
      let degrees : F → F = λ r. f.over_pi (f.times r f.half_turn) in
      if s.initialized then some (degrees s.pitch, degrees s.roll, degrees s.yaw) else none

pub fusion_get_gravity : {F : Type 0} → Fusion F → Option (Vec3 F)
fusion_get_gravity s = if s.initialized then some s.gravity else none

pub fusion_get_rotation : {F : Type 0} → Fusion F → Option (Vec3 F)
fusion_get_rotation s = if s.initialized then some s.rotation else none
