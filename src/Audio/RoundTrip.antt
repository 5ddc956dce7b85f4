-- ===== src/Audio/RoundTrip.antt =====
-- Volumes that are saved and loaded.
use lumi_os.Base.{
  ◌+◌, ◌<◌, ◌≤◌, ◌≡◌, refl, ap, ◌∙◌, false, none, some, List, [], ◌∷◌, ◌++◌, append_assoc,
  replicate, Text, codes, is_empty, is_space, skip_spaces, field, field_solid, AreSolid,
  Without-AreSolid, Without, Without-append, text_eq, lines, lines_from, lines-append, unlines,
  length, length-append, arith,
}
use lumi_os.Audio.{
  Floats, Volumes, stream_names, store, scan_value, scan_line, load_line, load_lines,
  default_levels, volume_init, level_lines, volume_save,
}

abbrev pub newline : Text → Text
newline s = s ++ 10 ∷ []

-- A key of the file: read whole by %31s, and with room for its value on a line of 128 bytes.
abbrev AreNames : List Text → Type 0
AreNames [] = Unit
AreNames (n ∷ ns) = (AreSolid n × (is_empty n ≡ false) × (length n ≤ 31)) × AreNames ns

module _ {F : Type 0} (f : Floats F) where
  -- `round x` is what %f reads of what %.2f writes of `x`.
  pub record IsPrinter (round : F → F) : Type 0 where
    pub scanned : (x : F) → f.scan (b' ' ∷ newline (f.print x)) ≡ some (round x)
    pub one_line : (x : F) → Without 10 (f.print x)
    pub short : (x : F) → length (f.print x) ≤ 60

  level_line : Text → F → Text
  level_line n x = n ++ (codes " = " ++ f.print x)

  skip_name :
      (n rest : Text) → AreSolid n → is_empty n ≡ false → skip_spaces (n ++ rest) ≡ n ++ rest
  unfolding skip_spaces
  skip_name [] rest h e = absurd (cc)
  skip_name (c ∷ n) rest h e = rw (h.0, skip_spaces) refl

  scan_line_lem :
      (n rest : Text) (v : F)
      → AreSolid n
      → is_empty n ≡ false
      → length n ≤ 31
      → f.scan (b' ' ∷ rest) ≡ some v
      → scan_line f (n ++ b' ' ∷ (b'=' ∷ (b' ' ∷ rest))) ≡ some (n, v)
  unfolding scan_line scan_value skip_spaces is_space
  scan_line_lem n rest v h e le s =
      let more = b'=' ∷ (b' ' ∷ rest) in
      rw (scan_line, skip_name n (b' ' ∷ more) h e, field_solid 31 n more h le, e, s) refl

  load_line_value :
      (line key : Text) (val : F) (ls : List F)
      → scan_line f line ≡ some (key, val)
      → load_line f line ls ≡ store f key val stream_names ls
  unfolding load_line
  load_line_value line key val ls e =
      λ i. elim (e i) [ none ↦ ls | some (k, v) ↦ store f k v stream_names ls ]

  newline-level_line :
      (n : Text) (x : F)
      → newline (level_line n x) ≡ n ++ b' ' ∷ (b'=' ∷ (b' ' ∷ newline (f.print x)))
  unfolding level_line
  newline-level_line n x = append_assoc n (codes " = " ++ f.print x) (10 ∷ [])

  store_each : List Text → List F → List F → List F
  store_each [] xs ls = ls
  store_each (n ∷ ns) [] ls = ls
  store_each (n ∷ ns) (x ∷ xs) ls = store_each ns xs (store f n x stream_names ls)

  map_round : (F → F) → List F → List F
  map_round round [] = []
  map_round round (x ∷ xs) = round x ∷ map_round round xs

  module _ {round : F → F} (p : IsPrinter round) where
    load_line_lem :
        (n : Text) (x : F) (ls : List F)
        → AreSolid n
        → is_empty n ≡ false
        → length n ≤ 31
        → load_line f (newline (level_line n x)) ls ≡ store f n (round x) stream_names ls
    load_line_lem n x ls h e le = load_line_value (newline (level_line n x)) n (round x) ls (
        ap (scan_line f) (newline-level_line n x)
        ∙ scan_line_lem n (newline (f.print x)) (round x) h e le (p.scanned x))

    load_lines_lem :
        (ns : List Text) (xs ls : List F)
        → AreNames ns
        → load_lines f (lines 128 (unlines (level_lines f ns xs))) ls
          ≡ store_each ns (map_round round xs) ls
    unfolding load_lines store_each map_round level_lines level_line
    load_lines_lem [] xs ls h = unfold lines lines_from in refl
    load_lines_lem (n ∷ ns) [] ls h = unfold lines lines_from in refl
    load_lines_lem (n ∷ ns) (x ∷ xs) ls ((solid, filled, le), hs) =
        let whole : Without 10 (level_line n x) =
          Without-append 10 n (codes " = " ++ f.print x) (Without-AreSolid n solid)
            (λ e. omega arith, (λ e. omega arith, (λ e. omega arith, p.one_line x))) in
        let fits : length (level_line n x) + 1 < 128 =
          omega (arith, length-append {0} n (codes " = " ++ f.print x), p.short x) in
        rw
          (
            lines-append 128 (level_line n x) (unlines (level_lines f ns xs)) whole fits,
            load_lines,
            load_line_lem n x ls solid filled le,
          )
          (load_lines_lem ns xs (store f n (round x) stream_names ls) hs)

    stream_names-AreNames : AreNames stream_names
    unfolding stream_names is_space
    stream_names-AreNames = ground arith

    stored :
        (a b c d e g : F) (ls : List F)
        → ls ≡ default_levels f
        → store_each stream_names (a ∷ b ∷ c ∷ d ∷ e ∷ g ∷ []) ls ≡ a ∷ b ∷ c ∷ d ∷ e ∷ g ∷ []
    unfolding store_each stream_names store text_eq default_levels
    stored a b c d e g ls h = ap (store_each stream_names (a ∷ b ∷ c ∷ d ∷ e ∷ g ∷ [])) h

    comment : Text
    comment = codes "# LumiOS audiod volume configuration"

    comment_skipped : (ls : List F) → load_line f (newline comment) ls ≡ ls
    unfolding load_line comment scan_line field skip_spaces
    comment_skipped ls = refl

    -- volume_init on the file that volume_save has written gives each of the six levels as %f reads
    -- what %.2f wrote of it, and no stream is muted, whatever was.
    pub volume_init-volume_save :
        (v : Volumes F) (a b c d e g : F)
        → v.level ≡ a ∷ b ∷ c ∷ d ∷ e ∷ g ∷ []
        → ((volume_init f (some (volume_save f v))).level
            ≡ round a ∷ round b ∷ round c ∷ round d ∷ round e ∷ round g ∷ [])
          × ((volume_init f (some (volume_save f v))).muted ≡ replicate 6 false)
    unfolding volume_init volume_save map_round comment
    volume_init-volume_save v a b c d e g h =
        let names = stream_names-AreNames in
        let rest = unlines (level_lines f stream_names v.level) in
        let one : Without 10 comment = omega arith in
        let fits : length comment + 1 < 128 = omega arith in
        (
          ap (λ (ss : List Text). load_lines f ss (default_levels f))
                (lines-append 128 comment rest one fits)
              ∙ ap (λ (ls : List F). load_lines f (lines 128 rest) ls)
                  (comment_skipped (default_levels f))
              ∙ load_lines_lem stream_names v.level (default_levels f) names
              ∙ ap
                  (λ (xs : List F). store_each stream_names (map_round round xs) (default_levels f))
                  h
              ∙ stored (round a) (round b) (round c) (round d) (round e) (round g)
                  (default_levels f) refl,
          refl,
        )
