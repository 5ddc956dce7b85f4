-- ===== src/Lumid/Child/Tests.antt =====
-- A service of a user, and one of a user that is not known.
use lumi_os.Base.{◌≡◌, refl, inl, none, some, pos, codes, text_eq, if◌then◌else◌}
use lumi_os.Lumid.Types.{Service}
use lumi_os.Lumid.Child.{Accounts, Credentials, at_exec, drop_privileges, execs, child_process}
use lumi_os.Lumid.Child.Privileges.{Drops, drop_privileges-Drops, child_process_unknown}
use lumi_os.Lumid.Samples.{db}

-- Every name that is not empty but "ghost" is a user with the ids 1000.
abbrev accounts : Accounts
accounts = record {
  passwd = λ name.
      if text_eq name (codes "ghost") then none else some (record { uid = 1000; gid = 1000 });
  group = λ name. some 44;
  init_groups = λ name gid. pos 0;
  set_gid = λ gid. pos 0;
  set_uid = λ uid. pos 0;
  change_dir = λ path. pos 0;
}

abbrev root : Credentials
root = record { uid = 0; gid = 0; groups = none }

drop_privileges-Drops_example :
    Drops accounts
      (codes "www")
      (codes "video")
      root
      (drop_privileges accounts (codes "www") (codes "video") root)
drop_privileges-Drops_example =
    drop_privileges-Drops accounts (codes "www") (codes "video") root refl

abbrev haunted : Service
haunted = record db { user = codes "ghost" }

ghost_unknown : accounts.passwd haunted.user ≡ none
unfolding text_eq
ghost_unknown = refl

child_process_unknown_example :
    (child_process accounts haunted root ≡ execs (at_exec accounts haunted root))
    × ((at_exec accounts haunted root).credentials ≡ root)
child_process_unknown_example =
    child_process_unknown accounts haunted root refl ghost_unknown (inl refl)
