-- ===== src/Telephony/Calls/Shutdown.antt =====
-- Which calls telephonyd_shutdown hangs up.
use lumi_os.Base.{
  ℕ, zero, suc, ◌+◌, ◌/◌, ◌≤◌, ◌<◌, ◌≡◌, refl, subst, ◌∙◌, inl, inr, true, none, some, List, [],
  ◌∷◌, ℤ, eq_ℤ, length, get_elem?, Bool-cases, Option-cases, arith,
}
use lumi_os.Telephony.Calls.{
  TelephonyCall, Phone, is_up, remove, call_hangup, hangup_from, hangup_calls,
}
use lumi_os.Telephony.Calls.Bound.{eq_ℤ-refl, length-remove}

-- Every call is ACTIVE or DIALING.
abbrev pub AllUp : List TelephonyCall → Type 0
AllUp [] = Unit
AllUp (c ∷ cs) = (is_up c.state ≡ true) × AllUp cs

-- What removing a call that stands at `i` leaves.
record Removed (id : ℤ) (cs : List TelephonyCall) : Type 0 where
  rest : List TelephonyCall
  removed : remove id cs ≡ some rest
  up : AllUp rest

remove_at :
    (i : ℕ) (cs : List TelephonyCall) (c : TelephonyCall)
    → AllUp cs
    → get_elem? cs i ≡ some c
    → Removed c.call_id cs × (is_up c.state ≡ true)
unfolding remove
remove_at i [] c u h = cc
remove_at zero (d ∷ cs) c u h =
    let q : d ≡ c = ground arith in
    subst (λ x. Removed x.call_id (d ∷ cs) × (is_up x.state ≡ true)) q
      (record { rest = cs; removed = rw (eq_ℤ-refl d.call_id) refl; up = u.1 }, u.0)
remove_at (suc i) (d ∷ cs) c u h =
    let (r, up) = remove_at i cs c u.1 h in
    (
      elim (Bool-cases (eq_ℤ d.call_id c.call_id)) [
        | inl e ↦ record { rest = cs; removed = rw e refl; up = u.1 }
        | inr e ↦ record {
          rest = d ∷ r.rest;
          removed = rw (e, remove, r.removed) refl;
          up = (u.0, r.up);
        }
      ],
      up,
    )

past_end : (i : ℕ) (cs : List TelephonyCall) → get_elem? cs i ≡ none → length cs ≤ i
past_end i [] h = omega arith
past_end zero (c ∷ cs) h = cc
past_end (suc i) (c ∷ cs) h = omega (arith, past_end i cs h)

before_end :
    (i : ℕ) (cs : List TelephonyCall) (c : TelephonyCall) → get_elem? cs i ≡ some c → i < length cs
before_end i [] c h = cc
before_end zero (d ∷ cs) c h = omega arith
before_end (suc i) (d ∷ cs) c h = omega (arith, before_end i cs c h)

hangup_from_half :
    (rounds i : ℕ) (t : Phone)
    → AllUp t.calls
    → i ≤ length t.calls + 1
    → length t.calls ≤ rounds + i
    → length (hangup_from rounds i t).calls ≡ (length t.calls + i) / 2
unfolding hangup_from call_hangup
hangup_from_half zero i t u a b = omega arith
hangup_from_half (suc rounds) i t u a b = elim (Option-cases (get_elem? t.calls i)) [
  | inl e ↦ rw (e, hangup_from) (omega (arith, past_end i t.calls e))
  | inr (c, e) ↦
      let (r, up) = remove_at i t.calls c u e in
      let shorter = length-remove c.call_id t.calls r.removed in
      let below = before_end i t.calls c e in
      rw (e, hangup_from, up, r.removed)
        (hangup_from_half rounds (i + 1) _ r.up (omega arith) (omega arith) ∙ omega arith)
]

-- With all calls ACTIVE or DIALING, the loop of telephonyd_shutdown leaves half of them, rounded
-- down.
pub length-hangup_calls :
    (t : Phone) → AllUp t.calls → length (hangup_calls t).calls ≡ length t.calls / 2
unfolding hangup_calls
length-hangup_calls t u =
    hangup_from_half (length t.calls) 0 t u (omega arith) (omega arith) ∙ omega arith
