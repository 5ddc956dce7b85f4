-- ===== src/Sandbox/Apply/Layers.antt =====
-- What sbx_apply has applied when it returns.
use lumi_os.Base.{
  ℕ, ◌≡◌, ◌≢◌, refl, inl, inr, true, false, Option, none, some, List, [], ◌∷◌, ◌++◌, pos, ℤ,
  is_negative, ◌&&◌, ltb, leb, not, is_empty, codes, take, length, Bool-cases, arith, if◌then◌else◌,
}
use lumi_os.Sandbox.Policy.{PathRule, Policy, Level, unconfined, trusted, normal, strict, untrusted}
use lumi_os.Sandbox.Seccomp.{filter_program, seccomp_apply}
use lumi_os.Sandbox.Landlock.{Ruleset, handled, landlock_apply, landlock_supported, add_rules}
use lumi_os.Sandbox.Apply.{Calls, is_unconfined, apparmor_apply, sbx_apply}

-- A kernel that has the three layers and grants every call.
pub record Grants (calls : Calls) : Type 0 where
  pub known : calls.landlock.is_missing ≡ false
  pub created : is_negative calls.landlock.created ≡ false
  pub landlock_privs : is_negative calls.landlock.no_new_privs ≡ false
  pub restricted : is_negative calls.landlock.restricted ≡ false
  pub memory : calls.filter.has_memory ≡ true
  pub filter_privs : is_negative calls.filter.no_new_privs ≡ false
  pub set_filter : is_negative calls.filter.set_filter ≡ false
  pub apparmor : calls.apparmor.is_supported ≡ true
  pub opened : is_negative calls.apparmor.opened ≡ false
  pub written : is_negative calls.apparmor.written ≡ false

-- What a list that is not empty gives.
abbrev pub when_any : {A B : Type 0} → List A → (List A → B) → Option B
when_any [] f = none
when_any (x ∷ xs) f = some (f (x ∷ xs))

if_any :
    {A B : Type 0} (xs : List A) (f : List A → B)
    → (if ltb 0 (length xs) then some (f xs) else none) ≡ when_any xs f
if_any [] f = refl
if_any (x ∷ xs) f = ground arith

if_any_again :
    {A B : Type 0} (xs : List A) (f : List A → B)
    → (if ltb 0 (length xs)
        then (if◌then◌else◌ {A = ℤ × Option B}
            (leb (length xs) 0)
            (pos 0, none)
            (pos 0, some (f xs))).1
        else none)
      ≡ when_any xs f
if_any_again [] f = refl
if_any_again (x ∷ xs) f = ground arith

module _ (arch idx : ℕ) (calls : Calls) (g : Grants calls) where
  abbrev ruleset_of : List PathRule → Ruleset
  ruleset_of rs = record { handled_access = handled; beneath = add_rules calls.landlock 0 rs }

  landlock_layer :
      (p : Policy)
      → (if landlock_supported calls.landlock && ltb 0 (length p.path_rules)
          then (landlock_apply calls.landlock p).1
          else none)
        ≡ when_any p.path_rules
            (λ rs. record { handled_access = handled; beneath = add_rules calls.landlock 0 rs })
  unfolding landlock_apply landlock_supported
  landlock_layer p = elim (Bool-cases (is_negative calls.landlock.probe)) [
    | inl e ↦
        rw (e, g.known, g.created, g.landlock_privs, g.restricted) (if_any p.path_rules ruleset_of)
    | inr e ↦ rw (e, g.created, g.landlock_privs, g.restricted) (if_any p.path_rules ruleset_of)
  ]

  filter_layer :
      (p : Policy)
      → (if ltb 0 (length p.syscall_rules) then (seccomp_apply arch idx calls.filter p).1 else none)
        ≡ when_any p.syscall_rules (λ rs. filter_program arch idx rs)
  unfolding seccomp_apply
  filter_layer p =
      rw (g.memory, g.filter_privs, g.set_filter)
        (if_any_again p.syscall_rules (λ rs. filter_program arch idx rs))

  apparmor_layer :
      (p : Policy)
      → (if not (is_empty p.apparmor_profile) && calls.apparmor.is_supported
          then (apparmor_apply calls.apparmor p.apparmor_profile).1
          else none)
        ≡ (if is_empty p.apparmor_profile
            then none
            else some (take 255 (codes "changeprofile " ++ p.apparmor_profile)))
  unfolding apparmor_apply
  apparmor_layer p = elim (Bool-cases (is_empty p.apparmor_profile)) [
    | inl e ↦ rw e refl
    | inr e ↦ rw (e, g.apparmor, g.opened, g.written) refl
  ]

confined : (l : Level) → l ≢ unconfined → is_unconfined l ≡ false
confined unconfined ne = absurd (ne refl)
confined trusted ne = refl
confined normal ne = refl
confined strict ne = refl
confined untrusted ne = refl

-- For a policy of any level but NONE, under a kernel that grants the calls, sbx_apply returns 0, and
-- the process is under the ruleset of the policy's paths where the policy has any, under the filter
-- of its system call rules where it has any, and under its AppArmor profile where it names one.
sbx_apply_granted :
    (arch idx : ℕ) (calls : Calls) (p : Policy)
    → Grants calls
    → p.level ≢ unconfined
    → sbx_apply arch idx calls p ≡ (
      pos 0,
      record {
        paths =
            when_any p.path_rules
              (λ rs. record { handled_access = handled; beneath = add_rules calls.landlock 0 rs });
        filter = when_any p.syscall_rules (λ rs. filter_program arch idx rs);
        profile =
            if is_empty p.apparmor_profile
            then none
            else some (take 255 (codes "changeprofile " ++ p.apparmor_profile));
      },
    )
unfolding sbx_apply
sbx_apply_granted arch idx calls p g ne =
    let e : is_unconfined p.level ≡ false = confined p.level ne in
    rw e (λ i. (
      pos 0,
      record {
        paths = landlock_layer arch idx calls g p i;
        filter = filter_layer arch idx calls g p i;
        profile = apparmor_layer arch idx calls g p i;
      },
    ))
