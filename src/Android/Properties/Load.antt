-- ===== src/Android/Properties/Load.antt =====
-- Loading the defaults and the property file.
use lumi_os.Base.{
  ◌+◌, ◌<◌, ◌≡◌, refl, ◌≢◌, Option, none, some, List, [], ◌∷◌, ◌++◌, append_assoc, Text, Without,
  Without-append, split_at, split_at_first, lines, lines-append, length, length-append, arith,
  false, ◌||◌, ◌==◌, lines_from, Bool-cases, Option-cases, inl, inr,
}
use lumi_os.Android.Properties.{
  Table, props_set, set_each, defaults, skip_blanks, drop_blanks, cut_line, load_line, load_lines,
  load_file, props_load_defaults,
}
use lumi_os.Android.Properties.Map.{IsTable, props_set-IsTable, set_each-IsTable}

load_line-IsTable : (line : Text) (ps : Table) → IsTable ps → IsTable (load_line line ps)
unfolding load_line
load_line-IsTable [] ps h = h
load_line-IsTable (c ∷ s) ps h = elim (Bool-cases (c == b'#' || c == 10)) [
  | inl e ↦ rw (e, load_line) h
  | inr e ↦ elim (Option-cases (split_at b'=' (c ∷ s))) [
    | inl n ↦ rw (e, n, load_line) h
    | inr ((key, val), n) ↦ rw (e, n, load_line) (props_set-IsTable _ _ ps h)
  ]
]

load_lines-IsTable : (ls : List Text) (ps : Table) → IsTable ps → IsTable (load_lines ls ps)
unfolding load_lines
load_lines-IsTable [] ps h = h
load_lines-IsTable (l ∷ ls) ps h = load_lines-IsTable ls _ (load_line-IsTable l ps h)

-- Whatever the property file holds, and where it cannot be opened, props_load_defaults leaves at
-- most 256 properties, with keys of at most 127 bytes and values of at most 255, if the table was
-- so before.
pub props_load_defaults-IsTable :
    (file : Option Text) (ps : Table) → IsTable ps → IsTable (props_load_defaults file ps)
unfolding props_load_defaults load_file
props_load_defaults-IsTable none ps h = set_each-IsTable defaults ps h
props_load_defaults-IsTable (some bytes) ps h =
    load_lines-IsTable (lines 512 bytes) _ (set_each-IsTable defaults ps h)

abbrev NoComment : Text → Type 0
NoComment [] = Unit
NoComment (c ∷ s) = c ≢ b'#'

-- A key and a value that a line of a property file can hold.
pub record IsEntry (key value : Text) : Type 0 where
  pub comment : NoComment key
  pub first : skip_blanks key ≡ key
  pub last : drop_blanks key ≡ key
  pub no_equals : Without b'=' key
  pub key_line : Without 10 key
  pub value_line : Without 10 value
  pub no_return : Without 13 value
  pub room : length key + length value < 510

abbrev pub AreEntries : List (Text × Text) → Type 0
AreEntries [] = Unit
AreEntries ((key, value) ∷ rest) = IsEntry key value × AreEntries rest

-- The file with a line `key=value` for each property.
abbrev pub print_props : List (Text × Text) → Text
print_props [] = []
print_props ((key, value) ∷ rest) = (key ++ b'=' ∷ value) ++ 10 ∷ print_props rest

cut_line-append :
    (value : Text) → Without 10 value → Without 13 value → cut_line (value ++ 10 ∷ []) ≡ value
unfolding cut_line
cut_line-append [] h k = refl
cut_line-append (c ∷ s) h k = ground (arith, cut_line-append s h.1 k.1, h.0, k.0)

load_line-entry :
    (key value : Text) (ps : Table)
    → IsEntry key value
    → load_line ((key ++ b'=' ∷ value) ++ 10 ∷ []) ps ≡ (props_set key value ps).1
unfolding load_line
load_line-entry [] value ps h =
    rw (split_at_first b'=' [] (value ++ 10 ∷ []) tt)
      (rw (cut_line-append value h.value_line h.no_return) (rw (h.first, h.last) refl))
load_line-entry (c ∷ s) value ps h =
    let t : (c == b'#' || c == 10) ≡ false = ground (arith, h.comment, h.key_line.0) in
    rw
      (
        append_assoc s (b'=' ∷ value) (10 ∷ []),
        t,
        load_line,
        split_at_first b'=' (c ∷ s) (value ++ 10 ∷ []) h.no_equals,
        cut_line-append value h.value_line h.no_return,
        h.first,
        h.last,
      )
      refl

-- Loading a file that has a line `key=value` for each property of a list, where a key does not
-- start with `#`, has no blanks at its ends and no `=`, neither part has a line end, and a line
-- fits in 511 bytes with its newline, sets these properties in order, as props_set does.
pub load_file-print_props :
    (entries : List (Text × Text)) (ps : Table)
    → AreEntries entries
    → load_file (print_props entries) ps ≡ set_each entries ps
unfolding load_file set_each load_lines
load_file-print_props [] ps h = unfold lines lines_from in refl
load_file-print_props ((key, value) ∷ rest) ps (h, hs) =
    let line = key ++ b'=' ∷ value in
    let fits : length line + 1 < 512 =
      omega (arith, length-append {0} key (b'=' ∷ value), h.room) in
    let whole : Without 10 line =
      Without-append 10 key (b'=' ∷ value) h.key_line (λ e. omega arith, h.value_line) in
    rw
      (
        lines-append 512 line (print_props rest) whole fits,
        load_lines,
        load_line-entry key value ps h,
      )
      (load_file-print_props rest _ hs)
