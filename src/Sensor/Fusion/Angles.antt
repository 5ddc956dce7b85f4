-- ===== src/Sensor/Fusion/Angles.antt =====
-- What the fusion gives after any samples.
use lumi_os.Base.{
  ◌≡◌, refl, ap, ◌∙◌, Bool, true, false, ◌||◌, Option, none, some, List, [], ◌∷◌, Bool-cases, inl,
  inr,
}
use lumi_os.Sensor.Fusion.{
  Maths, Vec3, Fusion, fusion_init, accel_pitch, accel_roll, initialize, integrate, correct_yaw,
  gravity_at, set_vectors, fusion_update, fusion_get_orientation, fusion_get_gravity,
  fusion_get_rotation,
}

-- One call of fusion_update.
pub record Samples (F : Type 0) : Type 0 where
  pub accel : Option (Vec3 F)
  pub gyro : Option (Vec3 F)
  pub magnet : Option (Vec3 F)

abbrev pub is_given : {F : Type 0} → Option (Vec3 F) → Bool
is_given none = false
is_given (some v) = true

-- Whether one of the calls has a sample of the accelerometer.
abbrev pub any_accel : {F : Type 0} → List (Samples F) → Bool
any_accel [] = false
any_accel (u ∷ us) = is_given u.accel || any_accel us

module _ {F : Type 0} (f : Maths F) where
  -- The calls, the latest first, after fusion_init.
  abbrev pub update_each : List (Samples F) → Fusion F
  update_each [] = fusion_init f
  update_each (u ∷ us) = fusion_update f u.accel u.gyro u.magnet (update_each us)

  abbrev pub degrees : F → F
  degrees r = f.over_pi (f.times r f.half_turn)

  abbrev pub vec_degrees : Option (Vec3 F) → Option (F × F × F)
  vec_degrees none = none
  vec_degrees (some v) = some (degrees v.x, degrees v.y, degrees v.z)

  initialize-initialized : (a : Vec3 F) (s : Fusion F) → (initialize f a s).initialized ≡ true
  unfolding initialize
  initialize-initialized a s = elim (Bool-cases s.initialized) [
    | inl e ↦ rw e refl
    | inr e ↦ rw e refl
  ]

  integrate-initialized :
      (a : Vec3 F) (g : Option (Vec3 F)) (s : Fusion F)
      → (integrate f a g s).initialized ≡ s.initialized
  unfolding integrate
  integrate-initialized a none s = refl
  integrate-initialized a (some g) s = refl

  correct_yaw-initialized :
      (m : Option (Vec3 F)) (s : Fusion F) → (correct_yaw f m s).initialized ≡ s.initialized
  unfolding correct_yaw
  correct_yaw-initialized none s = refl
  correct_yaw-initialized (some m) s = refl

  update-initialized :
      (a : Vec3 F) (g m : Option (Vec3 F)) (s : Fusion F)
      → (fusion_update f (some a) g m s).initialized ≡ true
  unfolding fusion_update set_vectors
  update-initialized a g m s =
      correct_yaw-initialized m (integrate f a g (initialize f a s))
      ∙ integrate-initialized a g (initialize f a s)
      ∙ initialize-initialized a s

  orientation_rotation :
      (o g m : Option (Vec3 F)) (s : Fusion F)
      → fusion_get_orientation f s ≡ vec_degrees (fusion_get_rotation s)
      → fusion_get_orientation f (fusion_update f o g m s)
        ≡ vec_degrees (fusion_get_rotation (fusion_update f o g m s))
  unfolding fusion_get_orientation fusion_get_rotation fusion_update set_vectors
  orientation_rotation none g m s h = h
  orientation_rotation (some a) g m s h = rw (update-initialized a g m s) refl

  rotation_given :
      (o g m : Option (Vec3 F)) (s : Fusion F)
      → is_given (fusion_get_rotation (fusion_update f o g m s))
        ≡ is_given o || is_given (fusion_get_rotation s)
  unfolding fusion_get_rotation fusion_update set_vectors
  rotation_given none g m s = refl
  rotation_given (some a) g m s = rw (update-initialized a g m s) refl

  gravity_alone :
      (a : Vec3 F) (m : Option (Vec3 F)) (s : Fusion F)
      → fusion_get_gravity (fusion_update f (some a) none m s)
        ≡ some (gravity_at f (accel_pitch f a) (accel_roll f a))
  unfolding fusion_get_gravity fusion_update set_vectors integrate correct_yaw
  gravity_alone a none s = rw (initialize-initialized a s) refl
  gravity_alone a (some m) s = rw (initialize-initialized a s) refl

  all_calls :
      (us : List (Samples F))
      → (fusion_get_orientation f (update_each us)
          ≡ vec_degrees (fusion_get_rotation (update_each us)))
        × (is_given (fusion_get_rotation (update_each us)) ≡ any_accel us)
  unfolding fusion_get_orientation fusion_get_rotation fusion_init
  all_calls [] = (refl, refl)
  all_calls (u ∷ us) =
      let (h, g) = all_calls us in
      (
        orientation_rotation u.accel u.gyro u.magnet (update_each us) h,
        rotation_given u.accel u.gyro u.magnet (update_each us) ∙ ap (λ b. is_given u.accel || b) g,
      )

  -- After fusion_init and any calls of fusion_update: fusion_get_rotation and fusion_get_orientation
  -- give a result as soon as one call had a sample of the accelerometer and -1 before; they give the
  -- same three angles, once as they are and once in degrees; and after a further call with a sample
  -- of the accelerometer and none of the gyroscope, fusion_get_gravity gives the gravity at the
  -- angles of that sample, whatever the calls before.
  pub fusion_lem :
      (us : List (Samples F)) (a : Vec3 F) (m : Option (Vec3 F))
      → (is_given (fusion_get_rotation (update_each us)) ≡ any_accel us)
        × (fusion_get_orientation f (update_each us)
            ≡ vec_degrees (fusion_get_rotation (update_each us)))
        × (fusion_get_gravity (fusion_update f (some a) none m (update_each us))
            ≡ some (gravity_at f (accel_pitch f a) (accel_roll f a)))
  fusion_lem us a m = let (h, g) = all_calls us in (g, h, gravity_alone a m (update_each us))
