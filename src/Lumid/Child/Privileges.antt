-- ===== src/Lumid/Child/Privileges.antt =====
-- With what credentials a service runs.
use lumi_os.Base.{
  ◌≡◌, ◌⊎◌, inl, inr, refl, true, false, none, some, ℤ, pos, neg, is_negative, Text, is_empty,
  Bool-cases, Option-cases,
}
use lumi_os.Lumid.Types.{Service}
use lumi_os.Lumid.Child.{
  Passwd, Accounts, Credentials, group_of, set_ids, drop_privileges, execs, at_exec, child_process,
}

-- The process has dropped its privileges to the user.
pub record IsDropped (a : Accounts) (group : Text) (pw : Passwd) (c : Credentials) : Type 0 where
  pub user : c.uid ≡ pw.uid
  pub primary : c.gid ≡ group_of a group pw

-- What util_drop_privileges does for a user that is named: it returns 0 with the ids of a known user
-- or it returns -1 and the user id is what it was.
pub data Drops (a : Accounts) (user group : Text) (before : Credentials)
    : ℤ × Credentials → Type 0 where
  dropped :
      {c : Credentials} (pw : Passwd)
      → a.passwd user ≡ some pw
      → IsDropped a group pw c
      → Drops a user group before (pos 0, c)
  kept : {c : Credentials} → c.uid ≡ before.uid → Drops a user group before (neg 1, c)

module _ (a : Accounts) (user group : Text) (c : Credentials) (named : is_empty user ≡ false) where
  set_ids-Drops :
      (pw : Passwd)
      → a.passwd user ≡ some pw
      → Drops a user group c (set_ids a user pw.uid (group_of a group pw) c)
  unfolding set_ids
  set_ids-Drops pw e = elim (Bool-cases (is_negative (a.init_groups user (group_of a group pw)))) [
    | inl g ↦ elim (Bool-cases (is_negative (a.set_gid (group_of a group pw)))) [
      | inl h ↦ rw (g, h) (kept refl)
      | inr h ↦ elim (Bool-cases (is_negative (a.set_uid pw.uid))) [
        | inl k ↦ rw (g, h, k) (kept refl)
        | inr k ↦ rw (g, h, k) (dropped pw e (record { user = refl; primary = refl }))
      ]
    ]
    | inr g ↦ elim (Bool-cases (is_negative (a.set_gid (group_of a group pw)))) [
      | inl h ↦ rw (g, h) (kept refl)
      | inr h ↦ elim (Bool-cases (is_negative (a.set_uid pw.uid))) [
        | inl k ↦ rw (g, h, k) (kept refl)
        | inr k ↦ rw (g, h, k) (dropped pw e (record { user = refl; primary = refl }))
      ]
    ]
  ]

  -- util_drop_privileges for a user that is named: it returns 0, the user is known, and the process
  -- has the user's id, and the group's (the user's own where no known group is named); or it
  -- returns -1, and the process has the user id that it had.
  pub drop_privileges-Drops : Drops a user group c (drop_privileges a user group c)
  unfolding drop_privileges
  drop_privileges-Drops = elim (Option-cases (a.passwd user)) [
    | inl e ↦ rw (named, drop_privileges, e) (kept refl)
    | inr (pw, e) ↦ rw (named, drop_privileges, e) (set_ids-Drops pw e)
  ]

-- A service whose user is not in the database is run all the same, with the credentials of lumid
-- itself, if it names no directory or its directory can be entered.
pub child_process_unknown :
    (a : Accounts) (s : Service) (c : Credentials)
    → is_empty s.user ≡ false
    → a.passwd s.user ≡ none
    → (is_empty s.working_dir ≡ true) ⊎ (is_negative (a.change_dir s.working_dir) ≡ false)
    → (child_process a s c ≡ execs (at_exec a s c)) × ((at_exec a s c).credentials ≡ c)
unfolding child_process at_exec drop_privileges
child_process_unknown a s c named unknown enters =
    (entered enters, rw (named, drop_privileges, unknown) refl)
  where
    entered :
        (is_empty s.working_dir ≡ true) ⊎ (is_negative (a.change_dir s.working_dir) ≡ false)
        → child_process a s c ≡ execs (at_exec a s c)
    entered (inl e) = rw e refl
    entered (inr e) = elim (Bool-cases (is_empty s.working_dir)) [
      | inl f ↦ rw f refl
      | inr f ↦ rw (e, f) refl
    ]
