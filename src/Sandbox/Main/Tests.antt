-- ===== src/Sandbox/Main/Tests.antt =====
-- `lumi-sandbox --policy /app.policy -- app`, and the other ends of main.
use lumi_os.Base.{◌≡◌, refl, true, false, none, some, List, [], ◌∷◌, pos, neg, Text, codes}
use lumi_os.Sandbox.Policy.{normal}
use lumi_os.Sandbox.PolicyFile.{sbx_policy_load}
use lumi_os.Sandbox.Apply.{Calls, Confined}
use lumi_os.Sandbox.Main.{
  Options, parsed, read_args, parse_level, defaults, exits, runs, sandbox_main,
}
use lumi_os.Sandbox.Main.Filter.{free, sandbox_main-unfiltered}

abbrev refusing : Calls
refusing = record {
  landlock = record {
    probe = neg 1;
    is_missing = true;
    created = neg 1;
    opened = λ i. neg 1;
    added = λ i. neg 1;
    no_new_privs = neg 1;
    restricted = neg 1;
  };
  filter = record { has_memory = true; no_new_privs = neg 1; set_filter = neg 1 };
  apparmor = record { is_supported = false; opened = neg 1; written = neg 1 };
}

abbrev policy : Text
policy = codes "name=app\npath=/data:0x1\n"

abbrev argv : List Text
argv = codes "--policy" ∷ codes "/app.policy" ∷ codes "--" ∷ codes "app" ∷ []

abbrev options : Options
options = record {
  level = normal;
  policy_file = some (codes "/app.policy");
  command = some (codes "app" ∷ []);
}

argv-options : read_args argv defaults ≡ parsed options
unfolding read_args
argv-options = refl

sandbox_main-unfiltered_example :
    (con : Confined) × (sandbox_main 3 1 refusing (λ c. true) [] [] (λ f. some policy) argv
      ≡ runs (codes "app" ∷ []) con)
    × (con.filter ≡ none)
    × ((sbx_policy_load policy).level ≡ pos 0 → con ≡ free)
sandbox_main-unfiltered_example =
    sandbox_main-unfiltered 3 1 refusing [] [] (λ c. true) (λ f. some policy) argv options
      (codes "/app.policy") policy (codes "app") [] argv-options refl refl refl refl

no_command :
    sandbox_main 3 1 refusing (λ c. true) [] [] (λ f. none) (codes "--level" ∷ []) ≡ exits 1
unfolding sandbox_main
no_command = refl

-- A level that is misspelt is the normal one.
misspelt : parse_level (codes "untrustd") ≡ normal
unfolding parse_level
misspelt = refl
