-- ===== src/Sandbox/Profile/Tests.antt =====
-- The profile of an application that may read and write one directory.
use lumi_os.Base.{◌+◌, ◌^◌, ◌<◌, ◌≤◌, ◌≡◌, ◌↔◌, refl, [], ◌∷◌, ◌++◌, pos, codes, replicate, arith}
use lumi_os.Sandbox.Policy.{Policy, strict, zeroed}
use lumi_os.Sandbox.Profile.{total, profile_pieces, apparmor_generate_profile}
use lumi_os.Sandbox.Profile.Bounds.{AllWithin, apparmor_generate_profile_within}

abbrev app : Policy
app = record (zeroed strict) {
  name = codes "app";
  path_rules = record { path = codes "/data"; flags = 3 } ∷ [];
  net_flags = 5;
  hw_flags = 14;
}

pieces :
    profile_pieces app
    ≡ codes
        "#include <tunables/global>\n\nprofile app flags=(attach_disconnected) {\n  #include <abstractions/base>\n\n"
      ∷ codes "  /data/** rw,\n"
      ∷ codes "  network tcp,\n"
      ∷ codes "  network udp,\n"
      ∷ codes "  deny /dev/video* rw,\n"
      ∷ []
unfolding profile_pieces
pieces = refl

size : total (profile_pieces app) ≡ 170
unfolding profile_pieces total
size = refl

fits : total (profile_pieces app) + 2 < 2 ^ 31
fits = omega (arith, size)

apparmor_generate_profile_within_example :
    ((apparmor_generate_profile app 256).0 ≡ pos (total (profile_pieces app ++ (codes "}\n" ∷ []))))
    × (AllWithin 256 (apparmor_generate_profile app 256).1 ↔ (total (profile_pieces app) ≤ 256))
apparmor_generate_profile_within_example =
    apparmor_generate_profile_within app 256 (omega arith) (omega arith) fits

-- One path of 255 bytes is too much for 256 bytes.
too_long :
    256
    < total (
        profile_pieces
          (record app { path_rules = record { path = replicate 255 b'a'; flags = 3 } ∷ [] }))
unfolding profile_pieces total
too_long = omega arith
