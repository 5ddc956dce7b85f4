-- ===== src/Audio/Tests.antt =====
-- Volumes that are off, half or full.
use lumi_os.Base.{
  ◌≡◌, refl, Bool, true, false, Option, none, some, [], ◌∷◌, ◌++◌, neg, Text, codes, contains,
  strstr, starts, replicate, Without, length, ◌≤◌, if◌then◌else◌, arith,
}
use lumi_os.Audio.{Floats, Volumes, headphone, volume_init, volume_get, volume_set, volume_save}
use lumi_os.Audio.RoundTrip.{IsPrinter, volume_init-volume_save}

data Loudness : Type 0 where
  below off half full above : Loudness

abbrev print : Loudness → Text
print below = codes "-1.00"
print off = codes "0.00"
print half = codes "0.50"
print full = codes "1.00"
print above = codes "9.00"

abbrev is_below : Loudness → Bool
is_below below = true
is_below _ = false

abbrev is_above : Loudness → Bool
is_above above = true
is_above _ = false

abbrev scan : Text → Option Loudness
scan s =
    if contains (codes "-1.00") s
    then some below
    else if contains (codes "0.00") s
    then some off
    else if contains (codes "0.50") s
    then some half
    else if contains (codes "1.00") s
    then some full
    else if contains (codes "9.00") s
    then some above
    else none

abbrev floats : Floats Loudness
floats = record {
  nought = off;
  one = full;
  lt_zero = is_below;
  gt_one = is_above;
  tenths = λ n. half;
  scan = scan;
  print = print;
}

scanned : (x : Loudness) → scan (b' ' ∷ (print x ++ 10 ∷ [])) ≡ some x
unfolding contains strstr starts
scanned below = refl
scanned off = refl
scanned half = refl
scanned full = refl
scanned above = refl

one_line : (x : Loudness) → Without 10 (print x)
one_line below = omega arith
one_line off = omega arith
one_line half = omega arith
one_line full = omega arith
one_line above = omega arith

short : (x : Loudness) → length (print x) ≤ 60
short below = omega arith
short off = omega arith
short half = omega arith
short full = omega arith
short above = omega arith

printer : IsPrinter floats (λ x. x)
printer = record { scanned = scanned; one_line = one_line; short = short }

abbrev saved : Volumes Loudness
saved = record {
  level = off ∷ full ∷ half ∷ half ∷ off ∷ full ∷ [];
  muted = replicate 6 true;
  active_output = headphone;
}

volume_init-volume_save_example :
    ((volume_init floats (some (volume_save floats saved))).level
      ≡ off ∷ full ∷ half ∷ half ∷ off ∷ full ∷ [])
    × ((volume_init floats (some (volume_save floats saved))).muted ≡ replicate 6 false)
volume_init-volume_save_example =
    volume_init-volume_save floats printer saved off full half half off full refl

-- A volume in the file is taken as it stands.
loud : volume_get floats (volume_init floats (some (codes "alarm = 9.00\n"))) 2 ≡ above
unfolding volume_get volume_init contains strstr
loud = refl

out_of_range : volume_set floats saved 6 half ≡ (neg 1, saved)
unfolding volume_set
out_of_range = refl
