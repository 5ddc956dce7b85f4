-- ===== src/Sandbox/Profile.antt =====
-- apparmor_generate_profile of system/core/sandbox/src/apparmor.c, for a buffer that is there.
pub mod Bounds
mod Tests
use lumi_os.Base.{
  ℕ, ◌+◌, ◌-◌, ◌%◌, ◌^◌, Bool, true, false, not, List, [], ◌∷◌, ◌++◌, ℤ, pos, neg, Text, codes,
  is_empty, if◌then◌else◌, ltb, ◌==◌, length,
}
use lumi_os.Sandbox.Policy.{Policy, PathRule}
use lumi_os.Sandbox.PolicyFile.{when}
use lumi_os.Sandbox.Landlock.{bit}

letter : Bool → ℕ → Text
letter b c = if b then c ∷ [] else []

perms : ℕ → Text
unfolding letter
perms flags =
    letter (bit flags 0) b'r'
    ++ (letter (bit flags 1) b'w'
        ++ (letter (bit flags 2) b'x' ++ (letter (bit flags 3) b'c' ++ letter (bit flags 4) b'd')))

path_pieces : List PathRule → List Text
unfolding perms
path_pieces [] = []
path_pieces (r ∷ rs) =
    (codes "  " ++ (r.path ++ (codes "/** " ++ (perms r.flags ++ codes ",\n")))) ∷ path_pieces rs

network_pieces : ℕ → List Text
network_pieces flags =
    if flags == 0
    then codes "\n  deny network,\n" ∷ []
    else when (bit flags 0) (codes "  network tcp,\n")
      ++ when (bit flags 2) (codes "  network udp,\n")

hardware_pieces : ℕ → List Text
hardware_pieces flags =
    when (not (bit flags 0)) (codes "  deny /dev/video* rw,\n")
    ++ (when (not (bit flags 1)) (codes "  deny /dev/snd/* rw,\n")
        ++ (when (not (bit flags 2)) (codes "  deny /dev/ttyUSB* rw,\n")
            ++ when (not (bit flags 3)) (codes "  deny /dev/hci* rw,\n")))

-- What the calls of snprintf print, up to the last of them.
pub profile_pieces : Policy → List Text
unfolding path_pieces network_pieces hardware_pieces
profile_pieces p =
    (codes "#include <tunables/global>\n\nprofile "
      ++ ((if is_empty p.name then codes "lumi-app" else p.name)
          ++ codes " flags=(attach_disconnected) {\n  #include <abstractions/base>\n\n"))
    ∷ (path_pieces p.path_rules ++ (network_pieces p.net_flags ++ hardware_pieces p.hw_flags))

-- snprintf (buf + at, room, text)
pub record Print : Type 0 where
  pub at : ℕ
  pub room : ℕ
  pub text : Text

-- `len - off` is a size_t.
pub prints : ℕ → ℕ → List Text → List Print
prints len off [] = []
prints len off (s ∷ ss) =
    record { at = off; room = (2 ^ 64 + len - off) % 2 ^ 64; text = s }
    ∷ prints len (off + length s) ss

pub total : List Text → ℕ
total [] = 0
total (s ∷ ss) = length s + total ss

-- The result, and the calls of snprintf.
pub apparmor_generate_profile : Policy → ℕ → ℤ × List Print
unfolding profile_pieces prints total
apparmor_generate_profile p len =
    let pieces = profile_pieces p ++ (codes "}\n" ∷ []) in
    if ltb len 256 then (neg 1, []) else (pos (total pieces), prints len 0 pieces)
