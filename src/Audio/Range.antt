-- ===== src/Audio/Range.antt =====
-- The range of the volumes.
use lumi_os.Base.{
  ℕ, zero, suc, ◌≡◌, refl, Bool, true, false, none, List, [], ◌∷◌, set, get_or, ltb, inl, inr,
  Bool-cases,
}
use lumi_os.Audio.{
  Floats, Volumes, default_levels, volume_init, volume_get, clamped, volume_set, volume_set_mute,
}

module _ {F : Type 0} (f : Floats F) where
  -- Not below 0 and not above 1.
  abbrev pub InRange : F → Type 0
  InRange x = (f.lt_zero x ≡ false) × (f.gt_one x ≡ false)

  abbrev AllInRange : List F → Type 0
  AllInRange [] = Unit
  AllInRange (x ∷ xs) = InRange x × AllInRange xs

  -- What the comparisons give on the constants.
  pub record IsOrdered : Type 0 where
    pub nought : InRange f.nought
    pub one : InRange f.one
    pub tenths : (n : ℕ) → ltb n 10 ≡ true → InRange (f.tenths n)

  -- volume_set and volume_set_mute.
  pub data Op : Type 0 where
    set_level : ℕ → F → Op
    set_mute : ℕ → Bool → Op

  abbrev pub perform_each : List Op → Volumes F → Volumes F
  perform_each [] v = v
  perform_each (set_level stream level ∷ ops) v = perform_each ops (volume_set f v stream level).1
  perform_each (set_mute stream mute ∷ ops) v = perform_each ops (volume_set_mute f v stream mute).1

  module _ (o : IsOrdered) where
    clamped-InRange : (x : F) → InRange (clamped f x)
    unfolding clamped
    clamped-InRange x = elim (Bool-cases (f.lt_zero x)) [
      | inl e ↦ rw (e, clamped, o.nought.1) o.nought
      | inr e ↦ elim (Bool-cases (f.gt_one x)) [
        | inl g ↦ rw (e, clamped, g) o.one
        | inr g ↦ rw (e, clamped, g) (e, g)
      ]
    ]

    set-AllInRange :
        (xs : List F) (i : ℕ) (x : F) → AllInRange xs → InRange x → AllInRange (set xs i x)
    set-AllInRange [] i x h k = tt
    set-AllInRange (y ∷ xs) zero x h k = (k, h.1)
    set-AllInRange (y ∷ xs) (suc i) x h k = (h.0, set-AllInRange xs i x h.1 k)

    get_or-InRange : (xs : List F) (i : ℕ) → AllInRange xs → InRange (get_or xs i f.nought)
    get_or-InRange [] i h = o.nought
    get_or-InRange (x ∷ xs) zero h = h.0
    get_or-InRange (x ∷ xs) (suc i) h = get_or-InRange xs i h.1

    volume_set-AllInRange :
        (v : Volumes F) (stream : ℕ) (level : F)
        → AllInRange v.level
        → AllInRange (volume_set f v stream level).1.level
    unfolding volume_set
    volume_set-AllInRange v stream level h = elim (Bool-cases (ltb 5 stream)) [
      | inl e ↦ rw (e, volume_set) h
      | inr e ↦
          rw (e, volume_set)
            (set-AllInRange v.level stream (clamped f level) h (clamped-InRange level))
    ]

    volume_set_mute-AllInRange :
        (v : Volumes F) (stream : ℕ) (mute : Bool)
        → AllInRange v.level
        → AllInRange (volume_set_mute f v stream mute).1.level
    unfolding volume_set_mute
    volume_set_mute-AllInRange v stream mute h = elim (Bool-cases (ltb 5 stream)) [
      | inl e ↦ rw (e, volume_set_mute) h
      | inr e ↦ rw (e, volume_set_mute) h
    ]

    perform_each-AllInRange :
        (ops : List Op) (v : Volumes F) → AllInRange v.level → AllInRange (perform_each ops v).level
    perform_each-AllInRange [] v h = h
    perform_each-AllInRange (set_level stream level ∷ ops) v h =
        perform_each-AllInRange ops _ (volume_set-AllInRange v stream level h)
    perform_each-AllInRange (set_mute stream mute ∷ ops) v h =
        perform_each-AllInRange ops _ (volume_set_mute-AllInRange v stream mute h)

    volume_get-InRange :
        (v : Volumes F) (stream : ℕ) → AllInRange v.level → InRange (volume_get f v stream)
    unfolding volume_get
    volume_get-InRange v stream h = elim (Bool-cases (ltb 5 stream)) [
      | inl e ↦ rw (e, volume_get) o.nought
      | inr e ↦ elim (Bool-cases (get_or v.muted stream false)) [
        | inl m ↦ rw (e, volume_get, m) o.nought
        | inr m ↦ rw (e, volume_get, m) (get_or-InRange v.level stream h)
      ]
    ]

    -- Where there is no volume file, whatever levels are set on whatever streams, and muted or not,
    -- no volume that volume_get returns is below 0 or above 1.
    volume_get-bounded :
        (ops : List Op) (stream : ℕ)
        → InRange (volume_get f (perform_each ops (volume_init f none)) stream)
    unfolding volume_init default_levels
    volume_get-bounded ops stream = volume_get-InRange _ stream (
        perform_each-AllInRange ops (volume_init f none) (
          o.tenths 6 refl,
          (
            o.tenths 8 refl,
            (o.tenths 9 refl, (o.tenths 7 refl, (o.tenths 8 refl, (o.tenths 5 refl, tt)))),
          ),
        ))
