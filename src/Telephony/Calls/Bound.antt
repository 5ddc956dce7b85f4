-- ===== src/Telephony/Calls/Bound.antt =====
-- The array of calls over the operations of call.c.
use lumi_os.Base.{
  ℕ, ◌+◌, ◌≤◌, ◌≡◌, refl, ap, inl, inr, true, false, Option, none, some, List, [], ◌∷◌, ◌++◌, ℤ,
  pos, is_negative, eq_ℤ, Text, is_empty, ltb, ltb→lt, lt→ltb, eq_ℤ_iff, take, sym, ◌∙◌, length,
  length-append, Bool-cases, Option-cases, arith,
}
use lumi_os.Telephony.Calls.{
  CallState, active, held, TelephonyCall, AtCommand, dial, release, hang_up, dialing, answer, hold,
  Phone, max_calls, set_state, remove, found, add_call, call_originate, call_answer, call_hold,
  call_hangup,
}

pub eq_ℤ-refl : (a : ℤ) → eq_ℤ a a ≡ true
eq_ℤ-refl a = (eq_ℤ_iff a a).1 refl

pub length-set_state :
    (id : ℤ) (st : CallState) (cs : List TelephonyCall) {ds : List TelephonyCall}
    → set_state id st cs ≡ some ds
    → length ds ≡ length cs
unfolding set_state
length-set_state id st [] h = cc
length-set_state id st (c ∷ cs) h = elim (Option-cases (set_state id st cs)) [
  | inl e ↦ ground arith
  | inr (es, e) ↦ ground (arith, length-set_state id st cs e)
]

pub length-remove :
    (id : ℤ) (cs : List TelephonyCall) {ds : List TelephonyCall}
    → remove id cs ≡ some ds
    → length cs ≡ length ds + 1
unfolding remove
length-remove id [] h = cc
length-remove id (c ∷ cs) h = elim (Option-cases (remove id cs)) [
  | inl e ↦ ground arith
  | inr (es, e) ↦ ground (arith, length-remove id cs e)
]

add_call_bounded :
    (number : Text) (t : Phone)
    → length t.calls ≤ max_calls
    → length (add_call number t).calls ≤ max_calls
unfolding add_call
add_call_bounded number t h = elim (Bool-cases (ltb (length t.calls) max_calls)) [
  | inl e ↦
      rw e (omega (arith, ltb→lt (length t.calls) max_calls e, length-append t.calls (_ ∷ [])))
  | inr e ↦ rw e h
]

module _ (t : Phone) (within : length t.calls ≤ max_calls) where
  found_bounded :
      (o : Option (List TelephonyCall)) (u : Phone)
      → u.calls ≡ t.calls
      → ((ds : List TelephonyCall) → o ≡ some ds → length ds ≤ max_calls)
      → length (found o u).1.calls ≤ max_calls
  unfolding found
  found_bounded none u e h = omega (arith, ap (λ l. length l) e)
  found_bounded (some ds) u e h = h ds refl

  -- With at most 8 calls, each operation leaves at most 8, whatever the modem answers.
  calls_bounded :
      (reply : List AtCommand → AtCommand → ℤ) (number : Text) (id : ℤ)
      → (length (call_originate reply number t).1.calls ≤ max_calls)
        × (length (call_answer reply id t).1.calls ≤ max_calls)
        × (length (call_hold reply id t).1.calls ≤ max_calls)
        × (length (call_hangup id t).1.calls ≤ max_calls)
  unfolding call_originate call_answer call_hold call_hangup
  calls_bounded reply number id = (
    originated,
    elim (Bool-cases (is_negative (reply t.sent answer))) [
      | inl e ↦ rw e within
      | inr e ↦
          rw e
            (found_bounded _ _ refl (λ ds q. omega (arith, length-set_state id active t.calls q)))
    ],
    elim (Bool-cases (is_negative (reply t.sent hold))) [
      | inl e ↦ rw e within
      | inr e ↦
          rw e (found_bounded _ _ refl (λ ds q. omega (arith, length-set_state id held t.calls q)))
    ],
    found_bounded _ _ refl (λ ds e. omega (arith, length-remove id t.calls e)),
  )
    where
      originated : length (call_originate reply number t).1.calls ≤ max_calls
      originated = elim (Bool-cases (is_empty number)) [
        | inl e ↦ rw e within
        | inr e ↦ elim (Bool-cases t.airplane_mode) [
          | inl f ↦ rw (e, f) within
          | inr f ↦ elim (Bool-cases (is_negative (reply t.sent (dial number)))) [
            | inl g ↦ rw (e, f, g) within
            | inr g ↦ rw (e, f, g) (add_call_bounded number _ within)
          ]
        ]
      ]

dialled : Text → List TelephonyCall → TelephonyCall
dialled number cs = record {
  state = dialing;
  number = take 31 number;
  call_id = pos (length cs + 1);
  multiparty = false;
}

-- With calls whose ids were given in order, so that the last of them has their number as its id:
-- hanging up the first and dialling again, where the modem takes the number, gives the new call the
-- id of the last one, which is still there.
call_originate_repeats :
    (reply : List AtCommand → AtCommand → ℤ) (number : Text) (t : Phone)
    (first last : TelephonyCall) (between : List TelephonyCall)
    → t.calls ≡ first ∷ (between ++ (last ∷ []))
    → last.call_id ≡ pos (length between + 2)
    → length t.calls ≤ max_calls
    → is_empty number ≡ false
    → t.airplane_mode ≡ false
    → is_negative (reply (hang_up ∷ release first.call_id ∷ t.sent) (dial number)) ≡ false
    → (new : TelephonyCall) × ((call_originate reply number (call_hangup first.call_id t).1).1.calls
        ≡ (between ++ (last ∷ [])) ++ (new ∷ []))
      × (new.call_id ≡ last.call_id)
unfolding call_originate call_hangup remove add_call dialled
call_originate_repeats reply number t first last between at numbered within named grounded ok =
    let rest = between ++ (last ∷ []) in
    let size : length rest ≡ length between + 1 =
      omega (arith, length-append between (last ∷ [])) in
    let small : ltb (length rest) max_calls ≡ true =
      lt→ltb _ _ (omega (arith, size, ap (λ l. length l) at)) in
    (
      dialled number rest,
      rw (at, eq_ℤ-refl first.call_id, named, grounded, ok, small) refl,
      ap (λ (n : ℕ). pos n) (omega (arith, size)) ∙ sym numbered,
    )
