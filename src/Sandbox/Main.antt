-- ===== src/Sandbox/Main.antt =====
-- The command line of system/core/sandbox/src/main.c.
--
-- What is printed is left out, with sbx_init, which only prints. `file_of` gives the bytes of a file
-- that fopen opens, and `found` says whether execvp finds the program.
pub mod Filter
mod Tests
use lumi_os.Base.{
  ℕ, Bool, true, false, ◌||◌, Option, none, some, List, [], ◌∷◌, ℤ, pos, negsuc, Text, codes,
  text_eq, if◌then◌else◌, ◌==◌, take,
}
use lumi_os.Sandbox.Policy.{
  Level, unconfined, trusted, normal, strict, untrusted, Policy, sbx_policy_default,
}
use lumi_os.Sandbox.PolicyFile.{Loaded, sbx_policy_load}
use lumi_os.Sandbox.Apply.{Calls, Confined, sbx_apply}

pub parse_level : Text → Level
unfolding text_eq
parse_level s =
    if text_eq s (codes "none")
    then unconfined
    else if text_eq s (codes "trusted")
    then trusted
    else if text_eq s (codes "normal")
    then normal
    else if text_eq s (codes "strict")
    then strict
    else if text_eq s (codes "untrusted")
    then untrusted
    else normal

-- `command` is argv from cmd_start on; none is -1.
pub record Options : Type 0 where
  pub level : Level
  pub policy_file : Option Text
  pub command : Option (List Text)

pub data Parsed : Type 0 where
  quits : ℕ → Parsed
  parsed : Options → Parsed

pub data Kind : Type 0 where
  end_mark level_flag policy_flag quit_flag other : Kind

-- "--level" and "--policy" count where one more argument is there.
kind : Text → Kind
unfolding text_eq
kind a =
    if text_eq a (codes "--")
    then end_mark
    else if text_eq a (codes "--level")
    then level_flag
    else if text_eq a (codes "--policy")
    then policy_flag
    else if text_eq a (codes "--test") || (text_eq a (codes "-h") || text_eq a (codes "--help"))
    then quit_flag
    else other

-- The loop over argv, from argv[1] on.
pub read_args : List Text → Options → Parsed
unfolding kind parse_level
read_args [] o = parsed o
read_args (a ∷ []) o = elim (kind a) [
  | end_mark ↦ parsed (record o { command = some [] })
  | quit_flag ↦ quits 0
  | _ ↦ parsed o
]
read_args (a ∷ b ∷ rest) o = elim (kind a) [
  | end_mark ↦ parsed (record o { command = some (b ∷ rest) })
  | level_flag ↦ read_args rest (record o { level = parse_level b })
  | policy_flag ↦ read_args rest (record o { policy_file = some b })
  | quit_flag ↦ quits 0
  | other ↦ read_args (b ∷ rest) o
]

abbrev pub defaults : Options
defaults = record { level = normal; policy_file = none; command = none }

-- main returns a code, or it is the program of the command.
pub data Outcome : Type 0 where
  exits : ℕ → Outcome
  runs : List Text → Confined → Outcome

-- sbx_apply tells SBX_LEVEL_NONE, 0, from all other numbers.
pub level_of : ℤ → Level
level_of (pos n) = if n == 0 then unconfined else untrusted
level_of (negsuc n) = untrusted

pub loaded_policy : Loaded → Policy
unfolding level_of
loaded_policy l = record l.rest { level = level_of l.level }

module _ (arch idx : ℕ) (calls : Calls) (found : Text → Bool) where
  -- From sbx_apply on; its result is only reported.
  pub confine : Text → List Text → Policy → Outcome
  unfolding sbx_apply
  confine c cs p = if found c then runs (c ∷ cs) (sbx_apply arch idx calls p).1 else exits 127

  module _ (blocked_normal blocked_strict : List ℕ) (file_of : Text → Option Text) where
    pub run_policy : Options → Text → List Text → Outcome
    unfolding confine loaded_policy
    run_policy o c cs = elim o.policy_file [
      | none ↦
          confine c cs
            (record (sbx_policy_default blocked_normal blocked_strict o.level) { name = take 63 c })
      | some f ↦ elim (file_of f) [
        | none ↦ exits 1
        | some bytes ↦ confine c cs (loaded_policy (sbx_policy_load bytes))
      ]
    ]

    pub run_parsed : Options → Outcome
    unfolding run_policy
    run_parsed o = elim o.command [
      | none ↦ exits 1
      | some args ↦ elim args [ [] ↦ exits 1 | c ∷ cs ↦ run_policy o c cs ]
    ]

    pub sandbox_main : List Text → Outcome
    unfolding read_args run_parsed
    sandbox_main argv = elim (read_args argv defaults) [
      | quits code ↦ exits code
      | parsed o ↦ run_parsed o
    ]
