-- ===== src/Sandbox/PolicyFile/Rules.antt =====
-- No line of a policy file adds a rule on system calls.
use lumi_os.Base.{◌≡◌, refl, ◌∙◌, List, [], ◌∷◌, Text, lines, arith}
use lumi_os.Sandbox.Policy.{Policy}
use lumi_os.Sandbox.PolicyFile.{Loaded, add_path, set_entry, load_line, load_lines, sbx_policy_load}

add_path_rules : (val : Text) (p : Policy) → (add_path val p).syscall_rules ≡ p.syscall_rules
unfolding add_path
add_path_rules val p = ground arith

set_entry_rules :
    (key val : Text) (l : Loaded) → (set_entry key val l).rest.syscall_rules ≡ l.rest.syscall_rules
unfolding set_entry
set_entry_rules key val l = ground (arith, add_path_rules val l.rest)

load_line_rules :
    (line : Text) (l : Loaded) → (load_line line l).rest.syscall_rules ≡ l.rest.syscall_rules
unfolding load_line
load_line_rules line l = grind (arith, set_entry_rules)

load_lines_rules :
    (ls : List Text) (l : Loaded) → (load_lines ls l).rest.syscall_rules ≡ l.rest.syscall_rules
unfolding load_lines
load_lines_rules [] l = refl
load_lines_rules (s ∷ ss) l = load_lines_rules ss (load_line s l) ∙ load_line_rules s l

pub sbx_policy_load_rules : (bytes : Text) → (sbx_policy_load bytes).rest.syscall_rules ≡ []
unfolding sbx_policy_load
sbx_policy_load_rules bytes = load_lines_rules (lines 512 bytes) _
