-- ===== src/Sensor/Shutdown/Fresh.antt =====
-- At most the first sensor of a type is active.
use lumi_os.Base.{
  ==_iff, ◌||◌, ℕ, zero, suc, ◌≡◌, refl, ◌∙◌, inl, inr, Bool, true, false, List, [], ◌∷◌, ℤ,
  Bool-cases, arith,
}
use lumi_os.Sensor.{SensorType, same_type, SensorInfo}
use lumi_os.Sensor.Reader.{update_sensor, enabled, disabled}
use lumi_os.Sensor.Shutdown.{active_at, type_at}

abbrev pub among : SensorType → List SensorType → Bool
among t [] = false
among t (u ∷ us) = same_type u t || among t us

-- An active sensor is the first of its type, the types in `seen` standing in front.
abbrev pub Fresh : List SensorType → List SensorInfo → Type 0
Fresh seen [] = Unit
Fresh seen (x ∷ xs) = (x.active ≡ true → among x.type seen ≡ false) × Fresh (x.type ∷ seen) xs

or-right : (a b : Bool) → (a || b) ≡ false → b ≡ false
or-right true b h = cc
or-right false b h = h

or-left : (a b : Bool) → (a || b) ≡ false → a ≡ false
or-left true b h = h
or-left false b h = refl

among-same :
    (a b : SensorType) (us : List SensorType) → same_type a b ≡ true → among a us ≡ among b us
among-same a b [] h = refl
among-same a b (u ∷ us) h = let e = (==_iff _ _).0 h in rw (e, among-same a b us h) refl

same_type_refl : (t : SensorType) → same_type t t ≡ true
same_type_refl t = (==_iff _ _).1 refl

Fresh-among :
    (seen : List SensorType) (xs : List SensorInfo) (i : ℕ)
    → Fresh seen xs
    → active_at xs i ≡ true
    → among (type_at xs i) seen ≡ false
Fresh-among seen [] i h a = cc
Fresh-among seen (x ∷ xs) zero h a = h.0 a
Fresh-among seen (x ∷ xs) (suc i) h a =
    or-right (same_type x.type (type_at xs i)) _ (Fresh-among (x.type ∷ seen) xs i h.1 a)

-- An active sensor is the one that sensor_disable finds by its type.
pub disabled_at :
    (seen : List SensorType) (xs : List SensorInfo) (i : ℕ)
    → Fresh seen xs
    → active_at xs i ≡ true
    → active_at (update_sensor disabled (type_at xs i) xs) i ≡ false
unfolding update_sensor disabled
disabled_at seen [] i h a = refl
disabled_at seen (x ∷ xs) zero h a = rw (same_type_refl x.type, update_sensor) refl
disabled_at seen (x ∷ xs) (suc i) h a =
    let e = or-left (same_type x.type (type_at xs i)) _ (Fresh-among (x.type ∷ seen) xs i h.1 a) in
    rw (e, update_sensor) (disabled_at (x.type ∷ seen) xs i h.1 a)

pub Fresh-disabled :
    (seen : List SensorType) (t : SensorType) (xs : List SensorInfo)
    → Fresh seen xs
    → Fresh seen (update_sensor disabled t xs)
unfolding update_sensor disabled
Fresh-disabled seen t [] h = tt
Fresh-disabled seen t (x ∷ xs) h = elim (Bool-cases (same_type x.type t)) [
  | inl e ↦ rw (e, update_sensor) (λ a. cc, h.1)
  | inr e ↦ rw (e, update_sensor) (h.0, Fresh-disabled (x.type ∷ seen) t xs h.1)
]

pub Fresh-enabled :
    (seen : List SensorType) (rate : ℤ) (t : SensorType) (xs : List SensorInfo)
    → among t seen ≡ false
    → Fresh seen xs
    → Fresh seen (update_sensor (enabled rate) t xs)
unfolding update_sensor enabled
Fresh-enabled seen rate t [] n h = tt
Fresh-enabled seen rate t (x ∷ xs) n h = elim (Bool-cases (same_type x.type t)) [
  | inl e ↦ rw (e, update_sensor) (λ a. among-same x.type t seen e ∙ n, h.1)
  | inr e ↦
      let m : among t (x.type ∷ seen) ≡ false = rw e n in
      rw (e, update_sensor) (h.0, Fresh-enabled (x.type ∷ seen) rate t xs m h.1)
]

-- sensor_disable makes no sensor active.
pub disabled_only :
    (t : SensorType) (xs : List SensorInfo) (i : ℕ)
    → active_at xs i ≡ false
    → active_at (update_sensor disabled t xs) i ≡ false
unfolding update_sensor disabled
disabled_only t [] i h = refl
disabled_only t (x ∷ xs) zero h = ground (arith, h)
disabled_only t (x ∷ xs) (suc i) h = elim (Bool-cases (same_type x.type t)) [
  | inl e ↦ rw (e, update_sensor) h
  | inr e ↦ rw (e, update_sensor) (disabled_only t xs i h)
]
