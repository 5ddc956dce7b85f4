-- ===== src/Sandbox/Profile/Bounds.antt =====
-- When apparmor_generate_profile stays in its buffer.
use lumi_os.Base.{
  ℕ, ◌+◌, ◌^◌, ◌<◌, ◌≤◌, ◌≡◌, ◌↔◌, refl, false, List, [], ◌∷◌, ◌++◌, pos, Text, codes, min, ltb,
  length, arith,
}
use lumi_os.Sandbox.Policy.{Policy}
use lumi_os.Sandbox.Profile.{Print, prints, total, profile_pieces, apparmor_generate_profile}

-- snprintf writes at most `room` bytes, its NUL included.
abbrev pub AllWithin : ℕ → List Print → Type 0
AllWithin len [] = Unit
AllWithin len (w ∷ ws) = (w.at + min (length w.text + 1) w.room ≤ len) × AllWithin len ws

prints_within :
    (len off : ℕ) (ss : List Text) (q : Text)
    → len < 2 ^ 63
    → off + total ss + length q < 2 ^ 31
    → AllWithin len (prints len off (ss ++ (q ∷ []))) ↔ (off + total ss ≤ len)
unfolding prints total
prints_within len off [] q l t = (λ h. omega (arith, h.0), λ h. (omega arith, tt))
prints_within len off (s ∷ ss) q l t =
    let ih = prints_within len (off + length s) ss q l (omega arith) in
    (λ h. omega (arith, ih.0 h.1), λ h. (omega arith, ih.1 (omega arith)))

-- For a buffer of 256 bytes or more, of whatever policy, apparmor_generate_profile returns the
-- length of the whole profile, also where it does not fit; and its calls of snprintf stay in the
-- buffer exactly when all that is printed in front of the last line, `}`, has at most the bytes of
-- the buffer. The lengths are assumed to be below 2 ^ 31, and that of the buffer below 2 ^ 63.
pub apparmor_generate_profile_within :
    (p : Policy) (len : ℕ)
    → 256 ≤ len
    → len < 2 ^ 63
    → total (profile_pieces p) + 2 < 2 ^ 31
    → ((apparmor_generate_profile p len).0 ≡ pos (total (profile_pieces p ++ (codes "}\n" ∷ []))))
      × (AllWithin len (apparmor_generate_profile p len).1 ↔ (total (profile_pieces p) ≤ len))
unfolding apparmor_generate_profile
apparmor_generate_profile_within p len lo hi t =
    let enough : ltb len 256 ≡ false = ground arith in
    let w = prints_within len 0 (profile_pieces p) (codes "}\n") hi (omega arith) in
    rw enough (refl, (λ h. omega (arith, w.0 h), λ h. w.1 (omega arith)))
