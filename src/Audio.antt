-- ===== src/Audio.antt =====
-- The volumes of the audio daemon: system/services/audiod/src/volume.c, with volume_state_t and
-- the streams of include/audiod.h.
--
-- A float is a value of any type with what the code does with it. What is printed to stderr is left
-- out. A stream is the number that the enumeration gives it.
pub mod Range
pub mod RoundTrip
mod Tests
use lumi_os.Base.{
  ℕ, zero, suc, ◌+◌, ◌-◌, Bool, true, false, Option, none, some, List, [], ◌∷◌, ◌++◌, ℤ, pos, neg,
  Text, codes, text_eq, is_empty, skip_spaces, is_space, field, lines, lines_from, unlines,
  if◌then◌else◌, ltb, ◌==◌, get_or, set, replicate,
}

-- `lt_zero` and `gt_one` are the two comparisons of volume_set, `scan` is what %f reads, white space
-- in front of it included, and `print` is %.2f.
pub record Floats (F : Type 0) : Type 0 where
  pub nought : F
  pub one : F
  pub lt_zero : F → Bool
  pub gt_one : F → Bool
  pub tenths : ℕ → F
  pub scan : Text → Option F
  pub print : F → Text

pub data Output : Type 0 where
  speaker headphone bluetooth hdmi usb : Output

-- The arrays have six elements.
pub record Volumes (F : Type 0) : Type 0 where
  pub level : List F
  pub muted : List Bool
  pub active_output : Output

pub stream_names : List Text
stream_names =
    codes "media"
    ∷ codes "ringtone"
    ∷ codes "alarm"
    ∷ codes "notification"
    ∷ codes "call"
    ∷ codes "system"
    ∷ []

module _ {F : Type 0} (f : Floats F) where
  -- The loop over the names: the level of the first that is the key.
  pub store : Text → F → List Text → List F → List F
  unfolding text_eq
  store key val [] ls = ls
  store key val (n ∷ ns) [] = []
  store key val (n ∷ ns) (l ∷ ls) =
      let rest = store key val ns ls in if text_eq key n then val ∷ ls else l ∷ rest

  -- What follows the key: white space, `=`, and a float.
  pub scan_value : Text → Text → Option (Text × F)
  scan_value key [] = none
  scan_value key (c ∷ s) =
      if c == b'=' then elim (f.scan s) [ none ↦ none | some val ↦ some (key, val) ] else none

  -- sscanf (line, "%31s = %f", key, &val), or none where it is not 2.
  pub scan_line : Text → Option (Text × F)
  unfolding scan_value field skip_spaces is_space
  scan_line line =
      let (key, rest) = field 31 (skip_spaces line) in
      if is_empty key then none else scan_value key (skip_spaces rest)

  pub load_line : Text → List F → List F
  unfolding scan_line store stream_names
  load_line line ls = elim (scan_line line) [
    | none ↦ ls
    | some (key, val) ↦ store key val stream_names ls
  ]

  pub load_lines : List Text → List F → List F
  unfolding load_line
  load_lines [] ls = ls
  load_lines (s ∷ ss) ls = load_lines ss (load_line s ls)

  pub default_levels : List F
  default_levels = f.tenths 6 ∷ f.tenths 8 ∷ f.tenths 9 ∷ f.tenths 7 ∷ f.tenths 8 ∷ f.tenths 5 ∷ []

  -- The bytes of the file, where it can be opened.
  pub volume_init : Option Text → Volumes F
  unfolding default_levels load_lines lines lines_from
  volume_init file = record {
    level = elim file [
      | none ↦ default_levels
      | some bytes ↦ load_lines (lines 128 bytes) default_levels
    ];
    muted = replicate 6 false;
    active_output = speaker;
  }

  pub volume_get : Volumes F → ℕ → F
  volume_get v stream =
      if ltb 5 stream
      then f.nought
      else if get_or v.muted stream false
      then f.nought
      else get_or v.level stream f.nought

  pub clamped : F → F
  clamped level =
      let low = if f.lt_zero level then f.nought else level in if f.gt_one low then f.one else low

  pub volume_set : Volumes F → ℕ → F → ℤ × Volumes F
  unfolding clamped
  volume_set v stream level =
      if ltb 5 stream
      then (neg 1, v)
      else (pos 0, record v { level = set v.level stream (clamped level) })

  pub volume_get_mute : Volumes F → ℕ → Bool
  volume_get_mute v stream = if ltb 5 stream then false else get_or v.muted stream false

  pub volume_set_mute : Volumes F → ℕ → Bool → ℤ × Volumes F
  volume_set_mute v stream mute =
      if ltb 5 stream then (neg 1, v) else (pos 0, record v { muted = set v.muted stream mute })

  pub level_lines : List Text → List F → List Text
  level_lines [] ls = []
  level_lines (n ∷ ns) [] = []
  level_lines (n ∷ ns) (l ∷ ls) = (n ++ (codes " = " ++ f.print l)) ∷ level_lines ns ls

  -- The bytes that are written where the file can be opened.
  pub volume_save : Volumes F → Text
  unfolding level_lines stream_names
  volume_save v =
      unlines (codes "# LumiOS audiod volume configuration" ∷ level_lines stream_names v.level)
