-- ===== src/Sandbox/PolicyFile/Tests.antt =====
-- A policy with one path, and a file written by hand.
use lumi_os.Base.{
  chomp, word, ◌≡◌, refl, [], ◌∷◌, pos, codes, text_eq, is_space, skip_spaces, split_at, lines,
  lines_from, atoi, arith, false,
}
use lumi_os.Sandbox.Policy.{strict, unconfined, Policy, zeroed, deny}
use lumi_os.Sandbox.PolicyFile.{
  scan_entry, set_entry, is_comment, load_line, load_lines, sbx_policy_load, sbx_policy_save,
}
use lumi_os.Sandbox.PolicyFile.RoundTrip.{IsSaved, kept, sbx_policy_load-sbx_policy_save}

abbrev web_policy : Policy
web_policy = record {
  name = codes "web";
  level = strict;
  path_rules = record { path = codes "/usr"; flags = 5 } ∷ [];
  syscall_rules = record { nr = pos 165; action = deny } ∷ [];
  syscall_whitelist = false;
  net_flags = 255;
  ipc_flags = 3;
  hw_flags = 0;
  apparmor_profile = [];
  max_memory = 1048576;
  max_pids = 0;
  max_fds = 1024;
  max_cpu_pct = 50;
}

web_policy-IsSaved : IsSaved web_policy
unfolding is_space
web_policy-IsSaved = record {
  name = ((refl, (refl, (refl, tt))), omega arith);
  profile = (tt, omega arith);
  net = omega arith;
  ipc = omega arith;
  hw = omega arith;
  memory = omega arith;
  pids = omega arith;
  fds = omega arith;
  count = omega arith;
  paths = (((refl, (refl, (refl, (refl, tt)))), omega arith, omega arith, omega arith), tt);
}

sbx_policy_load-sbx_policy_save_example :
    sbx_policy_load (sbx_policy_save web_policy) ≡ kept web_policy
sbx_policy_load-sbx_policy_save_example =
    sbx_policy_load-sbx_policy_save web_policy web_policy-IsSaved

-- A value ends at its first space.
name_cut :
    sbx_policy_load (codes "# policy\nname=my app\nlevel=3\nno value=\n")
    ≡ record { level = pos 3; rest = record (zeroed unconfined) { name = codes "my" } }
unfolding sbx_policy_load load_lines load_line chomp is_comment scan_entry word set_entry lines
    lines_from split_at text_eq skip_spaces is_space atoi
name_cut = refl
