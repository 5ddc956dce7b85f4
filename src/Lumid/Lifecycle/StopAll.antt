-- ===== src/Lumid/Lifecycle/StopAll.antt =====
-- service_start_all and service_stop_all over the start order.
use lumi_os.Base.{
  ℕ, ◌≡◌, refl, sym, subst, ◌∙◌, ◌⊎◌, inl, inr, false, some, List, [], ◌∷◌, ◌++◌, reverse, In,
  get_elem?, Bool-cases, Option-cases,
}
use mathlib.Core.List.{reverse-append}
use native.Mathlib.Decide.{ℕ_discrete}
use lumi_os.Lumid.Types.{Service, is_stoppable}
use lumi_os.Lumid.Machine.{Kernel, IsPosix, Machine}
use lumi_os.Lumid.Lifecycle.{
  start_each, service_start_all, service_stop, stop_each, service_stop_all,
}
use lumi_os.Lumid.Lifecycle.Frame.{Touches-refl, service_stop-Touches}
use lumi_os.Lumid.Lifecycle.Valid.{IsValid, service_start-IsValid, service_stop-IsValid}
use lumi_os.Lumid.Lifecycle.Outcome.{At, IsStopped, service_stop-IsStopped, service_stop_idle}

-- The service at `p` is neither RUNNING nor STARTING.
abbrev pub IsDownAt : ℕ → Machine → Type 0
IsDownAt p m = (s : Service) → get_elem? m.services p ≡ some s → is_stoppable s.state ≡ false

module _ (k : Kernel) where
  service_stop-IsDownAt : (p : ℕ) (m : Machine) → IsDownAt p (service_stop k p m).1
  unfolding service_stop
  service_stop-IsDownAt p m = elim (Option-cases (get_elem? m.services p)) [
    | inl e ↦ rw (e, service_stop) (λ s h. cc)
    | inr (s, e) ↦ elim (Bool-cases (is_stoppable s.state)) [
      | inl r ↦ λ t h. stopped t h (service_stop-IsStopped k p s m e r).1
      | inr r ↦ rw (service_stop_idle k p s m e r) (λ t h. idle s t e h r)
    ]
  ]
    where
      stopped :
          (t : Service)
          → get_elem? (service_stop k p m).1.services p ≡ some t
          → At p (service_stop k p m).1 IsStopped
          → is_stoppable t.state ≡ false
      stopped t h a = let e : a.service ≡ t = cc (h, a.there) in rw (← e, a.holds.state) refl

      idle :
          (s t : Service)
          → get_elem? m.services p ≡ some s
          → get_elem? m.services p ≡ some t
          → is_stoppable s.state ≡ false
          → is_stoppable t.state ≡ false
      idle s t e h r = let q : s ≡ t = cc (e, h) in subst (λ u. is_stoppable u.state ≡ false) q r

  service_stop_keeps : (q p : ℕ) (m : Machine) → IsDownAt p m → IsDownAt p (service_stop k q m).1
  service_stop_keeps q p m d = elim (ℕ_discrete p q) [
    | yes e ↦ subst (λ r. IsDownAt r (service_stop k q m).1) (sym e) (service_stop-IsDownAt q m)
    | no ne ↦ λ s h. d s (sym ((service_stop-Touches k (Touches-refl q m)).others p ne) ∙ h)
  ]

  stop_each_keeps :
      (qs : List ℕ) (p : ℕ) (m : Machine) → IsDownAt p m → IsDownAt p (stop_each k qs m)
  unfolding stop_each
  stop_each_keeps [] p m d = d
  stop_each_keeps (q ∷ qs) p m d = stop_each_keeps qs p _ (service_stop_keeps q p m d)

  stop_each_stops : (qs : List ℕ) (p : ℕ) (m : Machine) → In p qs → IsDownAt p (stop_each k qs m)
  unfolding stop_each
  stop_each_stops [] p m h = elim h [ ]
  stop_each_stops (q ∷ qs) p m (inl e) = rw e (stop_each_keeps qs q _ (service_stop-IsDownAt q m))
  stop_each_stops (q ∷ qs) p m (inr h) = stop_each_stops qs p _ h

  In-concat : (x y : ℕ) (xs : List ℕ) → In x xs ⊎ (x ≡ y) → In x (xs ++ (y ∷ []))
  In-concat x y [] (inl h) = elim h [ ]
  In-concat x y [] (inr e) = inl e
  In-concat x y (z ∷ xs) (inl (inl e)) = inl e
  In-concat x y (z ∷ xs) (inl (inr h)) = inr (In-concat x y xs (inl h))
  In-concat x y (z ∷ xs) (inr e) = inr (In-concat x y xs (inr e))

  In-reverse : (x : ℕ) (xs : List ℕ) → In x xs → In x (reverse xs)
  In-reverse x [] h = elim h [ ]
  In-reverse x (y ∷ xs) (inl e) =
      rw (reverse-append (y ∷ []) xs) (In-concat x y (reverse xs) (inr e))
  In-reverse x (y ∷ xs) (inr h) =
      rw (reverse-append (y ∷ []) xs) (In-concat x y (reverse xs) (inl (In-reverse x xs h)))

  -- After service_stop_all no service of the start order is RUNNING or STARTING.
  pub service_stop_all-IsDownAt :
      (m : Machine) (p : ℕ) → In p m.start_order → IsDownAt p (service_stop_all k m)
  unfolding service_stop_all
  service_stop_all-IsDownAt m p h =
      stop_each_stops (reverse m.start_order) p m (In-reverse p m.start_order h)

module _ (k : Kernel) (posix : IsPosix k) where
  start_each-IsValid : (ps : List ℕ) (m : Machine) → IsValid m → IsValid (start_each k ps m).1
  unfolding start_each
  start_each-IsValid [] m v = v
  start_each-IsValid (p ∷ ps) m v = elim (Option-cases (get_elem? m.services p)) [
    | inl e ↦ rw (e, start_each) (start_each-IsValid ps m v)
    | inr (s, e) ↦ elim (Bool-cases s.enabled) [
      | inl on ↦
          rw (e, start_each, on) (start_each-IsValid ps _ (service_start-IsValid k posix p m v))
      | inr off ↦ rw (e, start_each, off) (start_each-IsValid ps m v)
    ]
  ]

  pub service_start_all-IsValid : (m : Machine) → IsValid m → IsValid (service_start_all k m).1
  unfolding service_start_all
  service_start_all-IsValid m v = start_each-IsValid m.start_order m v

  stop_each-IsValid : (ps : List ℕ) (m : Machine) → IsValid m → IsValid (stop_each k ps m)
  unfolding stop_each
  stop_each-IsValid [] m v = v
  stop_each-IsValid (p ∷ ps) m v = stop_each-IsValid ps _ (service_stop-IsValid k posix p m v)

  pub service_stop_all-IsValid : (m : Machine) → IsValid m → IsValid (service_stop_all k m)
  unfolding service_stop_all
  service_stop_all-IsValid m v = stop_each-IsValid (reverse m.start_order) m v
