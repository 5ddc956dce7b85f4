-- ===== src/Sensor/Fusion/Tests.antt =====
-- A fusion over whole numbers, whose functions of math.h tell which was called.
use lumi_os.Base.{ℕ, ◌+◌, ◌*◌, ◌-◌, ◌≡◌, refl, none, some, List, [], ◌∷◌, true}
use lumi_os.Sensor.Fusion.{
  Maths, Vec3, fusion_init, fusion_update, fusion_get_orientation, fusion_get_gravity,
  fusion_get_rotation, gravity_at, accel_pitch, accel_roll, initialize, integrate, set_vectors,
}
use lumi_os.Sensor.Fusion.Angles.{Samples, is_given, update_each, vec_degrees, fusion_lem}

abbrev whole : Maths ℕ
whole = record {
  nought = 0;
  one = 1;
  earth = 9;
  minus_earth = 5;
  point_98 = 1;
  hundredth = 1;
  half_turn = 180;
  over_pi = λ n. n;
  plus = λ a b. a + b;
  minus = λ a b. a - b;
  times = λ a b. a * b;
  negate = λ n. n;
  sqrt = λ n. n;
  sin = λ n. n;
  cos = λ n. n + 1;
  atan2 = λ a b. a + 2 * b;
}

abbrev flat : Vec3 ℕ
flat = record { x = 0; y = 0; z = 1 }

abbrev calls : List (Samples ℕ)
calls =
    record { accel = some flat; gyro = some flat; magnet = none }
    ∷ record { accel = none; gyro = some flat; magnet = none }
    ∷ []

fusion_lem_example :
    (is_given (fusion_get_rotation (update_each whole calls)) ≡ true)
    × (fusion_get_orientation whole (update_each whole calls)
        ≡ vec_degrees whole (fusion_get_rotation (update_each whole calls)))
    × (fusion_get_gravity (fusion_update whole (some flat) none none (update_each whole calls))
        ≡ some (gravity_at whole (accel_pitch whole flat) (accel_roll whole flat)))
fusion_lem_example = fusion_lem whole calls flat none

first_angles :
    fusion_get_orientation whole (fusion_update whole (some flat) none none (fusion_init whole))
    ≡ some (360, 360, 0)
unfolding fusion_get_orientation fusion_update initialize integrate set_vectors accel_pitch
    accel_roll fusion_init
first_angles = refl
