-- ===== src/Sandbox/Policy/Levels.antt =====
-- What the preset levels deny.
use lumi_os.Base.{
  ℕ, ◌+◌, ◌%◌, ◌^◌, ◌≤◌, ◌<◌, ◌≡◌, ◌↔◌, ◌⊎◌, inl, inr, refl, sym, subst, false, some, List, [], ◌∷◌,
  ◌++◌, pos, length, length-append, leb, arith,
}
use lumi_os.Sandbox.Policy.{
  Policy, SyscallRule, deny, Level, unconfined, trusted, normal, strict, untrusted,
  max_syscall_rules, seccomp_add_rule, deny_each, seccomp_preset_normal, seccomp_preset_strict,
  sbx_policy_default,
}
use lumi_os.Sandbox.Seccomp.{killed, allowed, filter_program}
use lumi_os.Sandbox.Seccomp.Filter.{Denies, decides, filter_program_lem}

-- The system call stands on the list, by its 32 bits.
abbrev pub Blocks : List ℕ → ℕ → Type 0
Blocks [] nr = ⊥
Blocks (n ∷ ns) nr = (n % 2 ^ 32 ≡ nr) ⊎ Blocks ns nr

-- What a level is to deny: the first list, and both from STRICT on.
abbrev pub Forbids : List ℕ → List ℕ → Level → ℕ → Type 0
Forbids bn bs unconfined nr = ⊥
Forbids bn bs trusted nr = ⊥
Forbids bn bs normal nr = Blocks bn nr
Forbids bn bs strict nr = Blocks bn nr ⊎ Blocks bs nr
Forbids bn bs untrusted nr = Blocks bn nr ⊎ Blocks bs nr

Denies-append_inv :
    (rs : List SyscallRule) (r : SyscallRule) (nr : ℕ)
    → Denies (rs ++ (r ∷ [])) nr
    → Denies rs nr ⊎ Denies (r ∷ []) nr
Denies-append_inv [] r nr h = inr h
Denies-append_inv (q ∷ rs) r nr (inl h) = inl (inl h)
Denies-append_inv (q ∷ rs) r nr (inr h) = elim (Denies-append_inv rs r nr h) [
  | inl d ↦ inl (inr d)
  | inr d ↦ inr d
]

Denies-append :
    (rs : List SyscallRule) (r : SyscallRule) (nr : ℕ)
    → Denies rs nr ⊎ Denies (r ∷ []) nr
    → Denies (rs ++ (r ∷ [])) nr
Denies-append [] r nr (inl h) = absurd h
Denies-append [] r nr (inr h) = h
Denies-append (q ∷ rs) r nr (inl (inl h)) = inl h
Denies-append (q ∷ rs) r nr (inl (inr h)) = inr (Denies-append rs r nr (inl h))
Denies-append (q ∷ rs) r nr (inr h) = inr (Denies-append rs r nr (inr h))

abbrev denial : ℕ → SyscallRule
denial n = record { nr = pos n; action = deny }

added :
    (p : Policy) (n : ℕ)
    → length p.syscall_rules < max_syscall_rules
    → (seccomp_add_rule p (pos n) deny).1.syscall_rules ≡ p.syscall_rules ++ (denial n ∷ [])
unfolding seccomp_add_rule
added p n h =
    let e : leb max_syscall_rules (length p.syscall_rules) ≡ false = ground arith in rw e refl

module _ (nr : ℕ) where
  -- What the rules deny after a preset's loop with room for its list.
  data Extended (P : Type 0) (size : ℕ) (rules : List SyscallRule) : Type 0 where
    extended :
        (Denies rules nr → P) → (P → Denies rules nr) → length rules ≡ size → Extended P size rules

  deny_each-Extended :
      (ns : List ℕ) (p : Policy) (P : Type 0) (size : ℕ)
      → size + length ns ≤ max_syscall_rules
      → Extended P size p.syscall_rules
      → Extended (P ⊎ Blocks ns nr) (size + length ns) (deny_each ns p).syscall_rules
  unfolding deny_each
  deny_each-Extended [] p P size h (extended to from e) =
      extended (λ d. inl (to d)) (elim [ inl q ↦ from q | inr q ↦ absurd q ]) (omega (arith, e))
  deny_each-Extended (n ∷ ns) p P size h (extended to from e) =
      let p1 = (seccomp_add_rule p (pos n) deny).1 in
      let q : p1.syscall_rules ≡ p.syscall_rules ++ (denial n ∷ []) =
        added p n (omega (arith, e)) in
      let step : Extended (P ⊎ (n % 2 ^ 32 ≡ nr)) (size + 1) p1.syscall_rules =
        subst (λ rs. Extended (P ⊎ (n % 2 ^ 32 ≡ nr)) (size + 1) rs) (sym q)
          (extended
            (λ d. elim (Denies-append_inv p.syscall_rules (denial n) nr d) [
              | inl d' ↦ inl (to d')
              | inr (inl m) ↦ inr m.1
              | inr (inr m) ↦ absurd m
            ])
            (λ c.
              Denies-append p.syscall_rules (denial n) nr
                (elim c [ inl c' ↦ inl (from c') | inr m ↦ inr (inl (refl, m)) ]))
            (omega (arith, length-append p.syscall_rules (denial n ∷ []), e))) in
      elim (deny_each-Extended ns p1 (P ⊎ (n % 2 ^ 32 ≡ nr)) (size + 1) (omega arith) step) [
        | extended t f l ↦
            extended
              (λ d. elim (t d) [
                | inl (inl x) ↦ inl x
                | inl (inr x) ↦ inr (inl x)
                | inr x ↦ inr (inr x)
              ])
              (λ c.
                f (elim c [
                  | inl x ↦ inl (inl x)
                  | inr (inl x) ↦ inl (inr x)
                  | inr (inr x) ↦ inr x
                ]))
              (omega (arith, l))
      ]

Extended-map :
    {nr n : ℕ} {P Q : Type 0} {rs : List SyscallRule}
    → (P → Q)
    → (Q → P)
    → Extended nr P n rs
    → Extended nr Q n rs
Extended-map f g (extended to from e) = extended (λ d. f (to d)) (λ q. from (g q)) e

module _ (bn bs : List ℕ) (nr : ℕ) (room : length bn + length bs ≤ max_syscall_rules) where
  preset_normal-Extended :
      (p : Policy)
      → p.syscall_rules ≡ []
      → Extended nr (⊥ ⊎ Blocks bn nr) (length bn) (seccomp_preset_normal bn bs p).syscall_rules
  unfolding seccomp_preset_normal
  preset_normal-Extended p e =
      let p0 = record p { syscall_whitelist = false } in
      subst (λ n. Extended nr (⊥ ⊎ Blocks bn nr) n (deny_each bn p0).syscall_rules) (omega arith)
        (deny_each-Extended nr bn p0 ⊥ 0 (omega arith)
          (subst (λ rs. Extended nr ⊥ 0 rs) (sym e) (extended (λ d. d) (λ d. d) refl)))

  preset_strict-Extended :
      (p : Policy)
      → p.syscall_rules ≡ []
      → Extended nr
          ((⊥ ⊎ Blocks bn nr) ⊎ Blocks bs nr)
          (length bn + length bs)
          (seccomp_preset_strict bn bs p).syscall_rules
  unfolding seccomp_preset_strict
  preset_strict-Extended p e =
      deny_each-Extended nr bs _ (⊥ ⊎ Blocks bn nr) (length bn) room (preset_normal-Extended p e)

  both :
      (p : Policy)
      → p.syscall_rules ≡ []
      → Extended nr
          (Blocks bn nr ⊎ Blocks bs nr)
          (length bn + length bs)
          (seccomp_preset_strict bn bs p).syscall_rules
  both p e =
      Extended-map (elim [ inl (inl h) ↦ absurd h | inl (inr h) ↦ inl h | inr h ↦ inr h ])
        (elim [ inl h ↦ inl (inr h) | inr h ↦ inr h ]) (preset_strict-Extended p e)

  default-Extended :
      (level : Level)
      → (n : ℕ) × (n ≤ max_syscall_rules)
        × Extended nr (Forbids bn bs level nr) n (sbx_policy_default bn bs level).syscall_rules
  unfolding sbx_policy_default
  default-Extended unconfined = (0, omega arith, extended (λ d. d) (λ d. d) refl)
  default-Extended trusted = (0, omega arith, extended (λ d. d) (λ d. d) refl)
  default-Extended normal = (
    length bn,
    omega arith,
    Extended-map (elim [ inl h ↦ absurd h | inr h ↦ h ]) (λ h. inr h)
        (preset_normal-Extended _ refl),
  )
  default-Extended strict = (length bn + length bs, room, both _ refl)
  default-Extended untrusted = (length bn + length bs, room, both _ refl)

  -- The filter that seccomp_apply makes from the policy of a preset level kills the process, on its
  -- own architecture, at exactly the system calls that the level forbids, which for NORMAL are those
  -- of the first list and for STRICT and UNTRUSTED those of both, and allows every other, if both
  -- lists have room in the array of rules.
  pub sbx_policy_default_kills :
      (arch idx : ℕ) (level : Level)
      → let program = filter_program arch idx (sbx_policy_default bn bs level).syscall_rules in
        ((decides program arch nr ≡ some killed) ↔ Forbids bn bs level nr)
        × ((decides program arch nr ≡ some allowed) ↔ (¬ Forbids bn bs level nr))
  sbx_policy_default_kills arch idx level =
      let (n, small, shown) = default-Extended level in
      elim shown [
        | extended to from e ↦
            let (kills, allows) =
              filter_program_lem arch idx nr (sbx_policy_default bn bs level).syscall_rules
                (omega (arith, e)) in
            (
              (λ d. to (kills.0 d), λ d. kills.1 (from d)),
              (λ a d. allows.0 a (from d), λ d. allows.1 (λ f. d (to f))),
            )
      ]
