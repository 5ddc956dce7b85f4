-- ===== src/Sandbox/Landlock.antt =====
-- system/core/sandbox/src/landlock.c: the file system rules of a policy.
--
-- The answers of the kernel are parameters; `open` and `landlock_add_rule` answer by the index of
-- the rule. Access rights are sums of distinct powers of 2, as `|` makes them.
pub mod Rights
use lumi_os.Base.{
  ℕ, ◌+◌, ◌/◌, ◌%◌, ◌^◌, Bool, true, false, ◌||◌, not, Option, none, some, List, [], ◌∷◌, ℤ, pos,
  neg, is_negative, Text, if◌then◌else◌, ◌==◌,
}
use lumi_os.Sandbox.Policy.{Policy, PathRule}

-- flags & (1 << i)
abbrev pub bit : ℕ → ℕ → Bool
bit flags i = flags / 2 ^ i % 2 == 1

pub sbx_to_landlock : ℕ → ℕ
sbx_to_landlock flags =
    (if bit flags 0 then 2 ^ 2 + 2 ^ 3 else 0)
    + (if bit flags 1 then 2 ^ 1 else 0)
    + (if bit flags 2 then 2 ^ 0 else 0)
    + (if bit flags 3 then 2 ^ 8 + 2 ^ 7 else 0)
    + (if bit flags 4 then 2 ^ 5 + 2 ^ 4 else 0)
    + (if bit flags 5 then 2 ^ 13 else 0)

-- handled_access_fs
abbrev pub handled : ℕ
handled = 2 ^ 0 + 2 ^ 1 + 2 ^ 2 + 2 ^ 3 + 2 ^ 4 + 2 ^ 5 + 2 ^ 8 + 2 ^ 7 + 2 ^ 13

-- `probe` and `is_missing` are the first landlock_create_ruleset and whether errno is then ENOSYS
-- or EOPNOTSUPP.
pub record LandlockCalls : Type 0 where
  pub probe : ℤ
  pub is_missing : Bool
  pub created : ℤ
  pub opened : ℕ → ℤ
  pub added : ℕ → ℤ
  pub no_new_privs : ℤ
  pub restricted : ℤ

-- A rule of a ruleset: the path whose tree it is about, and the rights it gives there.
pub record Beneath : Type 0 where
  pub path : Text
  pub allowed_access : ℕ

pub record Ruleset : Type 0 where
  pub handled_access : ℕ
  pub beneath : List Beneath

unfoldable pub landlock_supported : LandlockCalls → Bool
landlock_supported c = not (is_negative c.probe) || not c.is_missing

-- The loop over the rules from index `i` on: a path that does not open is skipped.
pub add_rules : LandlockCalls → ℕ → List PathRule → List Beneath
unfolding sbx_to_landlock
add_rules c i [] = []
add_rules c i (r ∷ rs) =
    let rest = add_rules c (i + 1) rs in
    if is_negative (c.opened i)
    then rest
    else if is_negative (c.added i)
    then rest
    else record { path = r.path; allowed_access = sbx_to_landlock r.flags } ∷ rest

-- The result, and the ruleset that the process is under from then on.
unfoldable pub landlock_apply : LandlockCalls → Policy → ℤ × Option Ruleset
unfolding landlock_supported add_rules
landlock_apply c p =
    if not (landlock_supported c)
    then (neg 1, none)
    else if is_negative c.created
    then (neg 1, none)
    else if is_negative c.no_new_privs
    then (neg 1, none)
    else if is_negative c.restricted
    then (neg 1, none)
    else (pos 0, some (record { handled_access = handled; beneath = add_rules c 0 p.path_rules }))
