-- ===== src/Android/Properties/Tests.antt =====
-- The table of properties on small files.
use lumi_os.Base.{
  ◌≤◌, ◌≡◌, refl, ◌⊎◌, none, some, List, [], ◌∷◌, pos, neg, Text, codes, text_eq, if◌then◌else◌,
  length, take, lines, lines_from, split_at, arith,
}
use lumi_os.Android.Properties.{
  Table, props_init, props_set, props_get, set_each, skip_blanks, drop_blanks, cut_line, load_line,
  load_lines, load_file, props_load_defaults, defaults, update_existing, add_new,
}
use lumi_os.Android.Properties.Map.{props_set-refines, IsTable}
use lumi_os.Android.Properties.Load.{
  IsEntry, print_props, load_file-print_props, props_load_defaults-IsTable,
}

abbrev one_prop : Table
one_prop = record { key = codes "ro.secure"; value = codes "0" } ∷ []

one_prop-IsTable : IsTable one_prop
one_prop-IsTable = record { count = omega arith; fits = (omega arith, omega arith, tt) }

default_read :
    props_get (codes "ro.secure") (props_load_defaults none props_init) ≡ some (codes "0")
unfolding props_get props_load_defaults defaults set_each props_set update_existing add_new
    props_init text_eq
default_read = refl

file_read :
    load_file (codes "# c\n ro.secure =1\r\nnothing\n") one_prop
    ≡ record { key = codes "ro.secure"; value = codes "1" } ∷ []
unfolding load_file load_lines load_line lines lines_from split_at skip_blanks drop_blanks cut_line
    props_set update_existing text_eq
file_read = refl

props_set-refines_example :
    (((props_set (codes "a") (codes "b") one_prop).0 ≡ pos 0)
      × ((other : Text)
          → props_get other (props_set (codes "a") (codes "b") one_prop).1 ≡ (
              if text_eq (codes "a") other
              then some (take 255 (codes "b"))
              else props_get other one_prop)))
    ⊎ ((props_set (codes "a") (codes "b") one_prop ≡ (neg 1, one_prop))
        × (props_get (codes "a") one_prop ≡ none)
        × (256 ≤ length one_prop))
props_set-refines_example = props_set-refines (codes "a") (codes "b") one_prop (omega arith)

props_load_defaults-IsTable_example : IsTable (props_load_defaults (some (codes "a=b\n")) one_prop)
props_load_defaults-IsTable_example =
    props_load_defaults-IsTable (some (codes "a=b\n")) one_prop one_prop-IsTable

abbrev two_entries : List (Text × Text)
two_entries = (codes "ro.secure", codes "1") ∷ (codes "a b", codes " c = d") ∷ []

secure-IsEntry : IsEntry (codes "ro.secure") (codes "1")
unfolding skip_blanks drop_blanks
secure-IsEntry = record {
  comment = omega arith;
  first = refl;
  last = refl;
  no_equals = omega arith;
  key_line = omega arith;
  value_line = omega arith;
  no_return = omega arith;
  room = omega arith;
}

spaced-IsEntry : IsEntry (codes "a b") (codes " c = d")
unfolding skip_blanks drop_blanks
spaced-IsEntry = record {
  comment = omega arith;
  first = refl;
  last = refl;
  no_equals = omega arith;
  key_line = omega arith;
  value_line = omega arith;
  no_return = omega arith;
  room = omega arith;
}

load_file-print_props_example :
    load_file (print_props two_entries) one_prop ≡ set_each two_entries one_prop
load_file-print_props_example =
    load_file-print_props two_entries one_prop (secure-IsEntry, (spaced-IsEntry, tt))
