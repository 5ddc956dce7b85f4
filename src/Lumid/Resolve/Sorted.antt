-- ===== src/Lumid/Resolve/Sorted.antt =====
-- The invariant of the sort between two visits, and how marking a service keeps it.
use lumi_os.Base.{
  In, Distinct, ℕ, zero, suc, ◌≤◌, ◌<◌, ◌≡◌, refl, sym, subst, ◌∙◌, ◌≢◌, ◌⊎◌, inl, inr, some, List,
  [], ◌∷◌, ◌++◌, get_elem?, set, length, length-set, get_elem?-set_self, get_elem?-set_ne, arith,
}
use native.Mathlib.Decide.{ℕ_discrete}
use lumi_os.Lumid.Types.{Service}
use lumi_os.Lumid.Resolve.{Mark, unvisited, temporary, permanent, Sort, enter, leave}
use lumi_os.Lumid.Resolve.Graph.{
  Before, Needs, In-append_left, In-append_last, In-append_cases, Before-append_left,
  Before-append_last, Distinct-append_last, lt-length_of_get_elem?,
}

-- The services that are not marked yet.
abbrev pub room : List Mark → ℕ
room [] = 0
room (unvisited ∷ ms) = suc (room ms)
room (temporary ∷ ms) = room ms
room (permanent ∷ ms) = room ms

abbrev pub Marked : Sort → ℕ → Mark → Type 0
Marked s i x = get_elem? s.visit i ≡ some x

-- The order holds the permanent services, each once and behind all that it needs.
pub record IsSorted (arr : List Service) (s : Sort) : Type 0 where
  pub size : length arr ≤ length s.visit
  pub in_perm : (i : ℕ) → In i s.order → Marked s i permanent
  pub perm_in : (i : ℕ) → Marked s i permanent → In i s.order
  pub sorted : (i d : ℕ) → In i s.order → Needs arr i d → Before d i s.order
  pub distinct : Distinct s.order
  pub bounded : (i : ℕ) → In i s.order → i < length arr

-- What a visit may change: it marks unvisited services permanent, and no others.
pub record Grows (s t : Sort) : Type 0 where
  pub perm : (i : ℕ) → Marked s i permanent → Marked t i permanent
  pub temp : (i : ℕ) → Marked s i temporary → Marked t i temporary
  pub back : (i : ℕ) → Marked t i temporary → Marked s i temporary
  pub less : room t.visit ≤ room s.visit

pub Grows-refl : (s : Sort) → Grows s s
Grows-refl s = record { perm = λ i h. h; temp = λ i h. h; back = λ i h. h; less = omega arith }

pub Grows-trans : {s t u : Sort} → Grows s t → Grows t u → Grows s u
Grows-trans a b = record {
  perm = λ i h. b.perm i (a.perm i h);
  temp = λ i h. b.temp i (a.temp i h);
  back = λ i h. a.back i (b.back i h);
  less = omega arith;
}

mark-set_cases :
    (ms : List Mark) (i j : ℕ) (x y : Mark)
    → get_elem? (set ms i x) j ≡ some y
    → ((j ≡ i) × (y ≡ x)) ⊎ ((i ≢ j) × (get_elem? ms j ≡ some y))
mark-set_cases ms i j x y h = elim (ℕ_discrete i j) [
  | yes e ↦ inl (sym e, same e)
  | no ne ↦ inr (ne, sym (get_elem?-set_ne ms x ne) ∙ h)
]
  where
    inside : i ≡ j → i < length ms
    inside e = rw (e, ← length-set ms i x) (lt-length_of_get_elem? (set ms i x) j h)

    same : i ≡ j → y ≡ x
    same e =
        let p : get_elem? (set ms i x) i ≡ some y =
          subst (λ k. get_elem? (set ms i x) k ≡ some y) (sym e) h in
        cc (p, get_elem?-set_self ms i x (inside e))

room-set_temporary :
    (ms : List Mark) (i : ℕ)
    → get_elem? ms i ≡ some unvisited
    → suc (room (set ms i temporary)) ≡ room ms
room-set_temporary [] i h = cc
room-set_temporary (unvisited ∷ ms) zero h = refl
room-set_temporary (temporary ∷ ms) zero h = cc
room-set_temporary (permanent ∷ ms) zero h = cc
room-set_temporary (unvisited ∷ ms) (suc i) h = omega (arith, room-set_temporary ms i h)
room-set_temporary (temporary ∷ ms) (suc i) h = room-set_temporary ms i h
room-set_temporary (permanent ∷ ms) (suc i) h = room-set_temporary ms i h

room-set_permanent :
    (ms : List Mark) (i : ℕ) → get_elem? ms i ≡ some temporary → room (set ms i permanent) ≡ room ms
room-set_permanent [] i h = cc
room-set_permanent (unvisited ∷ ms) zero h = cc
room-set_permanent (temporary ∷ ms) zero h = refl
room-set_permanent (permanent ∷ ms) zero h = cc
room-set_permanent (unvisited ∷ ms) (suc i) h = omega (arith, room-set_permanent ms i h)
room-set_permanent (temporary ∷ ms) (suc i) h = room-set_permanent ms i h
room-set_permanent (permanent ∷ ms) (suc i) h = room-set_permanent ms i h

module _ {arr : List Service} {s : Sort} (v : IsSorted arr s) (i : ℕ)
    (fresh : Marked s i unvisited) where
  other_of_Marked : (j : ℕ) (x : Mark) → Marked s j x → x ≢ unvisited → i ≢ j
  other_of_Marked j x h ne e = let p : Marked s j unvisited = rw (← e) fresh in ne (cc)

  pub room-enter : suc (room (enter i s).visit) ≡ room s.visit
  room-enter = room-set_temporary s.visit i fresh

  pub enter-Marked : Marked (enter i s) i temporary
  enter-Marked = get_elem?-set_self s.visit i temporary (lt-length_of_get_elem? s.visit i fresh)

  pub enter_temporary :
      (j : ℕ) → Marked (enter i s) j temporary → (j ≡ i) ⊎ ((i ≢ j) × Marked s j temporary)
  enter_temporary j h = elim (mark-set_cases s.visit i j temporary temporary h) [
    | inl (e, f) ↦ inl e
    | inr (ne, p) ↦ inr (ne, p)
  ]

  pub enter_keeps : (j : ℕ) (x : Mark) → Marked s j x → x ≢ unvisited → Marked (enter i s) j x
  enter_keeps j x h ne = get_elem?-set_ne s.visit temporary (other_of_Marked j x h ne) ∙ h

  pub enter-IsSorted : IsSorted arr (enter i s)
  enter-IsSorted = record {
    size = rw length-set v.size;
    in_perm = λ j h. enter_keeps j permanent (v.in_perm j h) (λ e. cc);
    perm_in = λ j h. elim (mark-set_cases s.visit i j temporary permanent h) [
      | inl (e, f) ↦ absurd (cc)
      | inr (ne, p) ↦ v.perm_in j p
    ];
    sorted = v.sorted;
    distinct = v.distinct;
    bounded = v.bounded;
  }

module _ {arr : List Service} {u : Sort} (v : IsSorted arr u) (i : ℕ) (open_ : Marked u i temporary)
    (inside : i < length arr) (needed : (d : ℕ) → Needs arr i d → Marked u d permanent) where
  other_of_permanent : (j : ℕ) → Marked u j permanent → i ≢ j
  other_of_permanent j h e = let p : Marked u j temporary = rw (← e) open_ in cc

  pub leave-Marked : Marked (leave i u) i permanent
  leave-Marked = get_elem?-set_self u.visit i permanent (lt-length_of_get_elem? u.visit i open_)

  pub leave_permanent : (j : ℕ) → Marked u j permanent → Marked (leave i u) j permanent
  leave_permanent j h = get_elem?-set_ne u.visit permanent (other_of_permanent j h) ∙ h

  leave_sorted :
      (j d : ℕ) → In j u.order ⊎ (j ≡ i) → Needs arr j d → Before d j (u.order ++ (i ∷ []))
  leave_sorted j d (inl h) n = Before-append_left d j i u.order (v.sorted j d h n)
  leave_sorted j d (inr e) n =
      rw e
        (Before-append_last d i u.order (v.perm_in d (needed d (subst (λ k. Needs arr k d) e n))))

  leave-In_perm : (j : ℕ) → In j u.order ⊎ (j ≡ i) → Marked (leave i u) j permanent
  leave-In_perm j (inl h) = leave_permanent j (v.in_perm j h)
  leave-In_perm j (inr e) = rw e leave-Marked

  leave_bounded : (j : ℕ) → In j u.order ⊎ (j ≡ i) → j < length arr
  leave_bounded j (inl h) = v.bounded j h
  leave_bounded j (inr e) = rw e inside

  pub leave-IsSorted : IsSorted arr (leave i u)
  leave-IsSorted = record {
    size = rw length-set v.size;
    in_perm = λ j h. leave-In_perm j (In-append_cases j i u.order h);
    perm_in = λ j h. elim (mark-set_cases u.visit i j permanent permanent h) [
      | inl (e, f) ↦ rw e (In-append_last i u.order)
      | inr (ne, p) ↦ In-append_left j u.order (i ∷ []) (v.perm_in j p)
    ];
    sorted = λ j d h n. leave_sorted j d (In-append_cases j i u.order h) n;
    distinct =
        Distinct-append_last i u.order v.distinct (λ h. other_of_permanent i (v.in_perm i h) refl);
    bounded = λ j h. leave_bounded j (In-append_cases j i u.order h);
  }

  pub room-leave : room (leave i u).visit ≡ room u.visit
  room-leave = room-set_permanent u.visit i open_

  pub leave_temporary : (j : ℕ) → i ≢ j → Marked u j temporary → Marked (leave i u) j temporary
  leave_temporary j ne h = get_elem?-set_ne u.visit permanent ne ∙ h

  pub leave_back : (j : ℕ) → Marked (leave i u) j temporary → (i ≢ j) × Marked u j temporary
  leave_back j h = elim (mark-set_cases u.visit i j permanent temporary h) [
    | inl (e, f) ↦ absurd (cc)
    | inr (ne, p) ↦ (ne, p)
  ]
