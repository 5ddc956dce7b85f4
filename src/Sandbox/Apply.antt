-- ===== src/Sandbox/Apply.antt =====
-- sbx_apply of system/core/sandbox/src/sandbox.c, and apparmor_apply of apparmor.c: the three layers
-- that confine the process.
pub mod Layers
use lumi_os.Base.{
  ℕ, Bool, true, false, ◌&&◌, Option, none, some, List, [], ◌∷◌, ℤ, pos, neg, is_negative, Text,
  is_empty, if◌then◌else◌, ltb, length, not, take, codes, ◌++◌,
}
use lumi_os.Sandbox.Policy.{Policy, Level, unconfined, trusted, normal, strict, untrusted}
use lumi_os.Sandbox.Seccomp.{Instruction, FilterCalls, seccomp_apply}
use lumi_os.Sandbox.Landlock.{LandlockCalls, Ruleset, landlock_supported, landlock_apply}

-- Whether the directory of AppArmor is there, and what open and write return.
pub record ApparmorCalls : Type 0 where
  pub is_supported : Bool
  pub opened : ℤ
  pub written : ℤ

-- The result, and what is written to /proc/self/attr/current; snprintf keeps 255 bytes.
pub apparmor_apply : ApparmorCalls → Text → ℤ × Option Text
apparmor_apply c profile =
    if is_empty profile
    then (neg 1, none)
    else if is_negative c.opened
    then (neg 1, none)
    else if is_negative c.written
    then (neg 1, none)
    else (pos 0, some (take 255 (codes "changeprofile " ++ profile)))

pub record Calls : Type 0 where
  pub landlock : LandlockCalls
  pub filter : FilterCalls
  pub apparmor : ApparmorCalls

-- What confines the process.
pub record Confined : Type 0 where
  pub paths : Option Ruleset
  pub filter : Option (List Instruction)
  pub profile : Option Text

abbrev pub is_unconfined : Level → Bool
is_unconfined unconfined = true
is_unconfined _ = false

-- A layer that fails is reported, and the next one is applied all the same.
unfoldable pub sbx_apply : ℕ → ℕ → Calls → Policy → ℤ × Confined
unfolding landlock_apply landlock_supported seccomp_apply apparmor_apply
sbx_apply arch idx calls p =
    if is_unconfined p.level
    then (pos 0, record { paths = none; filter = none; profile = none })
    else (
      pos 0,
      record {
        paths =
            if landlock_supported calls.landlock && ltb 0 (length p.path_rules)
            then (landlock_apply calls.landlock p).1
            else none;
        filter =
            if ltb 0 (length p.syscall_rules)
            then (seccomp_apply arch idx calls.filter p).1
            else none;
        profile =
            if not (is_empty p.apparmor_profile) && calls.apparmor.is_supported
            then (apparmor_apply calls.apparmor p.apparmor_profile).1
            else none;
      },
    )
