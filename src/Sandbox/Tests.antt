-- ===== src/Sandbox/Tests.antt =====
-- The filter of a policy at concrete numbers.
use lumi_os.Base.{ℕ, ◌+◌, ◌≡◌, ◌↔◌, some, List, [], ◌∷◌, pos, length, arith}
use lumi_os.Sandbox.Policy.{SyscallRule, deny, log, strict, sbx_policy_default}
use lumi_os.Sandbox.Policy.Levels.{Forbids, sbx_policy_default_kills}
use lumi_os.Sandbox.Seccomp.{allowed, killed, prog_len, filter_program}
use lumi_os.Sandbox.Seccomp.Filter.{Denies, decides, filter_program_lem, length-filter_program}

abbrev two_rules : List SyscallRule
two_rules = record { nr = pos 169; action = deny } ∷ record { nr = pos 59; action = log } ∷ []

filter_program_lem_example :
    ((decides (filter_program 3 2 two_rules) 3 169 ≡ some killed) ↔ Denies two_rules 169)
    × ((decides (filter_program 3 2 two_rules) 3 169 ≡ some allowed) ↔ (¬ Denies two_rules 169))
filter_program_lem_example = filter_program_lem 3 2 169 two_rules (omega arith)

length-filter_program_example : length (filter_program 3 1 two_rules) ≡ prog_len two_rules + 1
length-filter_program_example = length-filter_program 3 1 two_rules

abbrev calls_normal : List ℕ
calls_normal = 165 ∷ 166 ∷ []

abbrev calls_strict : List ℕ
calls_strict = 41 ∷ []

sbx_policy_default_kills_example :
    let program =
      filter_program 3 1 (sbx_policy_default calls_normal calls_strict strict).syscall_rules in
    ((decides program 3 41 ≡ some killed) ↔ Forbids calls_normal calls_strict strict 41)
    × ((decides program 3 41 ≡ some allowed) ↔ (¬ Forbids calls_normal calls_strict strict 41))
sbx_policy_default_kills_example =
    sbx_policy_default_kills calls_normal calls_strict 41 (omega arith) 3 1 strict
