-- ===== src/Sandbox/Seccomp/Filter.antt =====
-- What the filter decides, by the semantics of classic BPF: a process that loads, compares, jumps
-- forward by the distance in the instruction, and returns.
use lumi_os.Base.{
  ℕ, zero, suc, ◌+◌, ◌-◌, ◌%◌, ◌≤◌, ◌<◌, ◌≡◌, ◌≢◌, ◌↔◌, ◌⊎◌, inl, inr, refl, ap, subst, ◌∙◌, true,
  false, Option, none, some, List, [], ◌∷◌, ◌++◌, if◌then◌else◌, length, length-append, ◌==◌,
  Bool-cases, arith,
}
use lumi_os.Sandbox.Policy.{SyscallRule, max_syscall_rules}
use lumi_os.Sandbox.Seccomp.{
  Verdict, allowed, killed, Instruction, load_arch, load_nr, jeq, ret, to_u32, is_deny, prog_len,
  rule_instructions, filter_program,
}

-- From an accumulator, with `skip` instructions to jump over: `none` runs off the end.
pub run : ℕ → ℕ → ℕ → ℕ → List Instruction → Option Verdict
run arch nr acc skip [] = none
run arch nr acc (suc skip) (i ∷ is) = run arch nr acc skip is
run arch nr acc zero (load_arch ∷ is) = run arch nr arch zero is
run arch nr acc zero (load_nr ∷ is) = run arch nr nr zero is
run arch nr acc zero (jeq k t f ∷ is) = run arch nr acc (if acc == k then t else f) is
run arch nr acc zero (ret v ∷ is) = some v

-- What the filter does to a system call of a process of an architecture.
abbrev pub decides : List Instruction → ℕ → ℕ → Option Verdict
decides program arch nr = run arch nr 0 0 program

-- A rule denies the system call.
abbrev pub Denies : List SyscallRule → ℕ → Type 0
Denies [] nr = ⊥
Denies (r ∷ rs) nr = ((is_deny r.action ≡ true) × (to_u32 r.nr ≡ nr)) ⊎ Denies rs nr

abbrev returns : List SyscallRule → List Instruction
returns rs = rule_instructions rs ++ (ret allowed ∷ ret killed ∷ [])

module _ (arch nr acc : ℕ) where
  run-skip_killed :
      (rs : List SyscallRule) → run arch nr acc (suc (length rs)) (returns rs) ≡ some killed
  unfolding run rule_instructions
  run-skip_killed [] = refl
  run-skip_killed (r ∷ rs) = run-skip_killed rs

  run-skip_allowed :
      (rs : List SyscallRule) → run arch nr acc (length rs) (returns rs) ≡ some allowed
  unfolding run rule_instructions
  run-skip_allowed [] = refl
  run-skip_allowed (r ∷ rs) = run-skip_allowed rs

-- The verdict, on the program's own architecture.
data Decided (P : Type 0) (v : Option Verdict) : Type 0 where
  kills : P → v ≡ some killed → Decided P v
  allows : ¬ P → v ≡ some allowed → Decided P v

undenied :
    (r : SyscallRule) (rs : List SyscallRule) (nr : ℕ)
    → ¬ ((is_deny r.action ≡ true) × (to_u32 r.nr ≡ nr))
    → ¬ Denies rs nr
    → ¬ Denies (r ∷ rs) nr
undenied r rs nr a b (inl h) = a h
undenied r rs nr a b (inr h) = b h

-- A rule that does not match, or does not deny, leaves the decision to those behind it.
run-pass :
    (arch nr k : ℕ) (rs : List SyscallRule)
    → run arch nr nr 0 (jeq k 0 0 ∷ returns rs) ≡ run arch nr nr 0 (returns rs)
unfolding run
run-pass arch nr k rs = elim (Bool-cases (nr == k)) [
  | inl e ↦ rw (e, run) refl
  | inr e ↦ rw (e, run) refl
]

run-rules :
    (arch nr : ℕ) (rs : List SyscallRule)
    → length rs < 255
    → Decided (Denies rs nr) (run arch nr nr 0 (returns rs))
unfolding run rule_instructions
run-rules arch nr [] h = allows (λ d. d) refl
run-rules arch nr (r ∷ rs) h = elim (Bool-cases (is_deny r.action)) [
  | inl d ↦ elim (Bool-cases (nr == to_u32 r.nr)) [
    | inl e ↦ kills (inl (d, ground arith)) (
        rw (d, e)
          (subst (λ n. run arch nr nr n (returns rs) ≡ some killed) (omega arith)
            (run-skip_killed arch nr nr rs)))
    | inr e ↦ elim (run-rules arch nr rs (omega arith)) [
      | kills p q ↦ kills (inr p) (rw (d, e) q)
      | allows p q ↦ allows (undenied r rs nr (λ m. ground (arith, m.1)) p) (rw (d, e) q)
    ]
  ]
  | inr d ↦ elim (run-rules arch nr rs (omega arith)) [
    | kills p q ↦ kills (inr p) (rw d (run-pass arch nr (to_u32 r.nr) rs ∙ q))
    | allows p q ↦
        allows (undenied r rs nr (λ m. cc (d, m.0)) p)
          (rw d (run-pass arch nr (to_u32 r.nr) rs ∙ q))
  ]
]

killed_iff :
    {P : Type 0} {v : Option Verdict}
    → Decided P v
    → ((v ≡ some killed) ↔ P) × ((v ≡ some allowed) ↔ (¬ P))
killed_iff (kills p q) = ((λ e. p, λ e. q), (λ e. absurd (cc (e, q)), λ n. absurd (n p)))
killed_iff (allows p q) = ((λ e. absurd (cc (e, q)), λ d. absurd (p d)), (λ e. p, λ e. q))

own_arch :
    (arch idx nr : ℕ) (rules : List SyscallRule)
    → decides (filter_program arch idx rules) arch nr ≡ run arch nr nr 0 (returns rules)
unfolding run filter_program
own_arch arch idx nr rules = ground arith

-- The filter for at most 128 rules, on the architecture it is made for and wherever `idx` is read:
-- it kills the process at exactly the system calls that some rule denies, and allows all others.
pub filter_program_lem :
    (arch idx nr : ℕ) (rules : List SyscallRule)
    → length rules ≤ max_syscall_rules
    → ((decides (filter_program arch idx rules) arch nr ≡ some killed) ↔ Denies rules nr)
      × ((decides (filter_program arch idx rules) arch nr ≡ some allowed) ↔ (¬ Denies rules nr))
filter_program_lem arch idx nr rules h =
    rw (own_arch arch idx nr rules) (killed_iff (run-rules arch nr rules (omega arith)))

other_arch :
    (arch other nr jf : ℕ) (rest : List Instruction)
    → other ≢ arch
    → decides (load_arch ∷ jeq arch 0 jf ∷ rest) other nr ≡ run other nr other jf rest
unfolding run
other_arch arch other nr jf rest ne =
    let e : (other == arch) ≡ false = ground arith in rw (e, run) refl

-- On any other architecture the filter for at most 128 rules kills the process at every system call
-- if `idx` is read before `idx++` counts it, and allows every system call if it is read after.
filter_program_foreign :
    (arch other nr : ℕ) (rules : List SyscallRule)
    → length rules ≤ max_syscall_rules
    → other ≢ arch
    → (decides (filter_program arch 1 rules) other nr ≡ some killed)
      × (decides (filter_program arch 2 rules) other nr ≡ some allowed)
unfolding run filter_program
filter_program_foreign arch other nr rules h ne =
    let rest = load_nr ∷ returns rules in
    let j1 : (prog_len rules - 1 - 1) % 256 ≡ suc (suc (length rules)) = omega arith in
    let j2 : (prog_len rules - 2 - 1) % 256 ≡ suc (length rules) = omega arith in
    (
      other_arch arch other nr _ rest ne
          ∙ ap (λ n. run other nr other n rest) j1
          ∙ run-skip_killed other nr other rules,
      other_arch arch other nr _ rest ne
          ∙ ap (λ n. run other nr other n rest) j2
          ∙ run-skip_allowed other nr other rules,
    )

length-rule_instructions : (rs : List SyscallRule) → length (rule_instructions rs) ≡ length rs
unfolding rule_instructions
length-rule_instructions [] = refl
length-rule_instructions (r ∷ rs) = omega (arith, length-rule_instructions rs)

-- The program has one instruction more than `calloc (prog_len, …)` makes room for, whatever the
-- rules.
pub length-filter_program :
    (arch idx : ℕ) (rules : List SyscallRule)
    → length (filter_program arch idx rules) ≡ prog_len rules + 1
unfolding filter_program
length-filter_program arch idx rules = omega (
  arith,
  length-append (rule_instructions rules) (ret allowed ∷ ret killed ∷ []),
  length-rule_instructions rules,
)
