-- ===== src/Sandbox/Main/Filter.antt =====
-- What confines a program that lumi-sandbox runs under a policy file.
use lumi_os.Base.{
  ℕ, ◌≡◌, refl, ap, ◌∙◌, Bool, true, Option, none, some, List, [], ◌∷◌, pos, Text, arith,
}
use lumi_os.Sandbox.Policy.{Policy, unconfined}
use lumi_os.Sandbox.PolicyFile.{sbx_policy_load}
use lumi_os.Sandbox.PolicyFile.Rules.{sbx_policy_load_rules}
use lumi_os.Sandbox.Apply.{Calls, Confined, sbx_apply}
use lumi_os.Sandbox.Main.{
  Options, parsed, read_args, defaults, runs, level_of, loaded_policy, confine, run_policy,
  run_parsed, sandbox_main,
}

abbrev pub free : Confined
free = record { paths = none; filter = none; profile = none }

module _ (arch idx : ℕ) (calls : Calls) where
  sbx_apply-unfiltered :
      (p : Policy) → p.syscall_rules ≡ [] → (sbx_apply arch idx calls p).1.filter ≡ none
  unfolding sbx_apply
  sbx_apply-unfiltered p e = ground arith

  sbx_apply-unconfined : (p : Policy) → p.level ≡ unconfined → (sbx_apply arch idx calls p).1 ≡ free
  unfolding sbx_apply
  sbx_apply-unconfined p e = ground arith

  -- With `--policy` and a command that execvp finds, on a file that can be opened, whatever stands
  -- in it and whatever the kernel answers, the command is run and no system call filter is on it;
  -- and nothing confines it where the level that is read is 0, as for a file that sets none.
  pub sandbox_main-unfiltered :
      (blocked_normal blocked_strict : List ℕ) (found : Text → Bool) (file_of : Text → Option Text)
      (argv : List Text) (o : Options) (f bytes c : Text) (cs : List Text)
      → read_args argv defaults ≡ parsed o
      → o.policy_file ≡ some f
      → file_of f ≡ some bytes
      → o.command ≡ some (c ∷ cs)
      → found c ≡ true
      → (con : Confined) × (sandbox_main arch idx calls found blocked_normal blocked_strict file_of
            argv
          ≡ runs (c ∷ cs) con)
        × (con.filter ≡ none)
        × ((sbx_policy_load bytes).level ≡ pos 0 → con ≡ free)
  unfolding sandbox_main run_parsed run_policy confine loaded_policy
  sandbox_main-unfiltered normal strict found file_of argv o f bytes c cs a p b k e = (
    (sbx_apply arch idx calls (loaded_policy (sbx_policy_load bytes))).1,
    rw (a, sandbox_main, k, run_parsed, p, run_policy, b, confine, e) refl,
    sbx_apply-unfiltered (loaded_policy (sbx_policy_load bytes)) (sbx_policy_load_rules bytes),
    λ z.
        sbx_apply-unconfined (loaded_policy (sbx_policy_load bytes))
          (ap level_of z ∙ (unfold level_of in refl)),
  )
