-- ===== src/Sandbox/PolicyFile/Entry.antt =====
-- One line of a policy file, read back.
use lumi_os.Base.{
  take_all, ◌<◌, ◌≤◌, ◌≡◌, refl, ap, ◌∙◌, inl, inr, Bool, true, false, none, some, List, [], ◌∷◌,
  ◌++◌, Text, is_empty, split_at_first, Without, Without-append, AreSolid, chomp, word_solid,
  skip_solid, Without-AreSolid, lines, lines_from, lines-append, unlines, map, if◌then◌else◌, ltb,
  length, length-append, Bool-cases, arith,
}
use lumi_os.Sandbox.PolicyFile.{
  Loaded, value_of, scan_entry, set_entry, is_comment, load_line, load_lines, when,
}

abbrev pub newline : Text → Text
newline s = s ++ 10 ∷ []

-- A key that a line can have.
abbrev pub IsKey : Text → Type 0
IsKey key = (is_comment key ≡ false) × Without b'=' key × Without 10 key × (length key ≤ 63)

chomp-newline : (s : Text) → Without 10 s → chomp (newline s) ≡ s
unfolding chomp
chomp-newline s h = rw (chomp, split_at_first 10 s [] h) refl

is_comment-append : (key s : Text) → is_comment key ≡ false → is_comment (key ++ s) ≡ false
unfolding is_comment
is_comment-append [] s h = absurd (cc)
is_comment-append (c ∷ key) s h = h

is_empty-key : (key : Text) → is_comment key ≡ false → is_empty key ≡ false
unfolding is_comment
is_empty-key [] h = cc
is_empty-key (c ∷ key) h = refl

value_of_solid :
    (key val : Text)
    → AreSolid val
    → length val ≤ 255
    → value_of key val ≡ (if is_empty val then none else some (key, val))
unfolding value_of
value_of_solid key val h le =
    rw (value_of, skip_solid val h, word_solid val h, take_all 255 val le) refl

scan_entry_lem :
    (key val : Text)
    → IsKey key
    → AreSolid val
    → length val ≤ 255
    → scan_entry (key ++ b'=' ∷ val) ≡ (if is_empty val then none else some (key, val))
unfolding scan_entry
scan_entry_lem key val (c, e, n, le) h lv =
    let room : ltb 63 (length key) ≡ false = ground arith in
    rw (scan_entry, split_at_first b'=' key val e, is_empty-key key c, room)
      (value_of_solid key val h lv)

-- The line `key=val`, read into `l`.
pub load_line-entry :
    (key val : Text) (l : Loaded)
    → IsKey key
    → AreSolid val
    → length val ≤ 255
    → load_line (newline (key ++ b'=' ∷ val)) l ≡ (if is_empty val then l else set_entry key val l)
unfolding load_line
load_line-entry key val l (c, e, n, le) h lv =
    let whole : Without 10 (key ++ b'=' ∷ val) =
      Without-append 10 key (b'=' ∷ val) n (λ q. omega arith, Without-AreSolid val h) in
    let scanned = scan_entry_lem key val (c, e, n, le) h lv in
    elim (Bool-cases (is_empty val)) [
      | inl b ↦
          let s : scan_entry (key ++ b'=' ∷ val) ≡ none = scanned ∙ (rw b refl) in
          rw
            (
              b,
              load_line,
              chomp-newline (key ++ b'=' ∷ val) whole,
              is_comment-append key (b'=' ∷ val) c,
              s,
            )
            refl
      | inr b ↦
          let s : scan_entry (key ++ b'=' ∷ val) ≡ some (key, val) = scanned ∙ (rw b refl) in
          rw
            (
              b,
              load_line,
              chomp-newline (key ++ b'=' ∷ val) whole,
              is_comment-append key (b'=' ∷ val) c,
              s,
            )
            refl
    ]

-- What a line can be that fgets reads whole.
abbrev pub IsLine : Text → Type 0
IsLine s = Without 10 s × (length s < 511)

abbrev pub AreShort : List Text → Type 0
AreShort [] = Unit
AreShort (s ∷ ss) = IsLine s × AreShort ss

pub IsLine-entry :
    (key val : Text) → IsKey key → AreSolid val → length val ≤ 255 → IsLine (key ++ b'=' ∷ val)
IsLine-entry key val (c, e, n, le) h lv = (
  Without-append 10 key (b'=' ∷ val) n (λ q. omega arith, Without-AreSolid val h),
  omega (arith, length-append {0} key (b'=' ∷ val)),
)

pub AreShort-when :
    (b : Bool) (s : Text) (ss : List Text) → IsLine s → AreShort ss → AreShort (when b s ++ ss)
AreShort-when true s ss h k = (h, k)
AreShort-when false s ss h k = k

pub lines-unlines :
    (ss : List Text) → AreShort ss → lines 512 (unlines ss) ≡ map (λ s. newline s) ss
lines-unlines [] h = unfold lines lines_from in refl
lines-unlines (s ∷ ss) h =
    lines-append 512 s (unlines ss) h.0.0 (omega (arith, h.0.1))
    ∙ ap (λ (ts : List Text). newline s ∷ ts) (lines-unlines ss h.1)

-- Reading on behind a line whose effect is known.
pub after_line :
    (s : Text) (ss : List Text) (l l' : Loaded)
    → load_line (newline s) l ≡ l'
    → load_lines (map (λ t. newline t) (s ∷ ss)) l ≡ load_lines (map (λ t. newline t) ss) l'
unfolding load_lines
after_line s ss l l' e = ap (λ (k : Loaded). load_lines (map (λ t. newline t) ss) k) e

pub after_when :
    (b : Bool) (s : Text) (ss : List Text) (l l' : Loaded)
    → (b ≡ true → load_line (newline s) l ≡ l')
    → (b ≡ false → l ≡ l')
    → load_lines (map (λ t. newline t) (when b s ++ ss)) l ≡ load_lines (map (λ t. newline t) ss) l'
after_when true s ss l l' e f = after_line s ss l l' (e refl)
after_when false s ss l l' e f =
    ap (λ (k : Loaded). load_lines (map (λ t. newline t) ss) k) (f refl)
