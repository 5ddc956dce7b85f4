-- ===== src/Sandbox/Seccomp.antt =====
-- seccomp_apply of system/core/sandbox/src/seccomp.c: the BPF program for the system call rules.
--
-- An instruction is what a BPF_STMT or BPF_JUMP of that function makes; a jump's distances are bytes.
-- AUDIT_ARCH_CURRENT is a parameter.
pub mod Filter
use lumi_os.Base.{
  ℕ, ◌+◌, ◌-◌, ◌%◌, ◌^◌, Bool, true, false, Option, none, some, List, [], ◌∷◌, ◌++◌, ℤ, pos, negsuc,
  neg, is_negative, if◌then◌else◌, length, ltb, leb,
}
use lumi_os.Sandbox.Policy.{Policy, SyscallRule, Action, allow, deny, log}

-- What a return statement of the filter decides.
pub data Verdict : Type 0 where
  allowed killed : Verdict

pub data Instruction : Type 0 where
  load_arch : Instruction
  load_nr : Instruction
  jeq : ℕ → ℕ → ℕ → Instruction
  ret : Verdict → Instruction

-- The conversion of an `int` to the 32 bits of `k`.
abbrev pub to_u32 : ℤ → ℕ
to_u32 (pos n) = n % 2 ^ 32
to_u32 (negsuc n) = 2 ^ 32 - 1 - n % 2 ^ 32

abbrev pub is_deny : Action → Bool
is_deny deny = true
is_deny _ = false

abbrev pub prog_len : List SyscallRule → ℕ
prog_len rules = 3 + length rules + 1

-- "Add deny rules": `remaining` is the number of rules behind this one.
pub rule_instructions : List SyscallRule → List Instruction
rule_instructions [] = []
rule_instructions (r ∷ rs) =
    (if is_deny r.action
      then jeq (to_u32 r.nr) ((length rs + 1) % 256) 0
      else jeq (to_u32 r.nr) 0 0)
    ∷ rule_instructions rs

-- The program. `idx` is the value that `prog_len - idx - 1` reads beside `idx++` in one expression:
-- 1 or 2, as the compiler orders the two.
pub filter_program : ℕ → ℕ → List SyscallRule → List Instruction
unfolding rule_instructions
filter_program arch idx rules =
    load_arch
    ∷ jeq arch 0 ((prog_len rules - idx - 1) % 256)
    ∷ load_nr
    ∷ (rule_instructions rules ++ (ret allowed ∷ ret killed ∷ []))

-- Whether calloc gives memory, and what the two calls of prctl return.
pub record FilterCalls : Type 0 where
  pub has_memory : Bool
  pub no_new_privs : ℤ
  pub set_filter : ℤ

-- The result, and the filter that the process has from then on.
unfoldable pub seccomp_apply : ℕ → ℕ → FilterCalls → Policy → ℤ × Option (List Instruction)
unfolding filter_program
seccomp_apply arch idx calls p =
    let program = filter_program arch idx p.syscall_rules in
    if leb (length p.syscall_rules) 0
    then (pos 0, none)
    else if calls.has_memory
    then (if is_negative calls.no_new_privs
        then (neg 1, none)
        else if is_negative calls.set_filter
        then (neg 1, none)
        else (pos 0, some program))
    else (neg 12, none)
