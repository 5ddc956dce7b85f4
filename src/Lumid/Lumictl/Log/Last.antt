-- ===== src/Lumid/Lumictl/Log/Last.antt =====
-- The lines that show_log prints of a long log.
use lumi_os.Base.{
  unlines, AreLines, ℕ, zero, suc, ◌+◌, ◌-◌, ◌<◌, ◌≤◌, ◌≡◌, refl, sym, ap, subst, ◌∙◌, false, List,
  [], ◌∷◌, ◌++◌, append_assoc, reverse, reverse_aux, reverse-append, Text, is_empty, split_at_first,
  Without, ◌==◌, if◌then◌else◌, length, length-append, length-take, length-drop, take, drop,
  take-append-drop, arith,
}
use lumi_os.Lumid.Lumictl.Log.{count_lines, scan_back, last_lines, print_log}

unlines-append : (ks ls : List Text) → unlines (ks ++ ls) ≡ unlines ks ++ unlines ls
unlines-append [] ls = refl
unlines-append (l ∷ ks) ls =
    rw (unlines-append ks ls) (sym (append_assoc l (10 ∷ unlines ks) (unlines ls)))

AreLines-drop : (n : ℕ) (ls : List Text) → AreLines ls → AreLines (drop n ls)
AreLines-drop zero ls h = h
AreLines-drop (suc n) [] h = tt
AreLines-drop (suc n) (l ∷ ls) h = AreLines-drop n ls h.1

not_empty : (l s : Text) → is_empty (l ++ 10 ∷ s) ≡ false
not_empty [] s = refl
not_empty (c ∷ l) s = refl

count_lines_full :
    (n : ℕ) (ls : List Text) → AreLines ls → n ≤ length ls → count_lines n (unlines ls) ≡ n
unfolding count_lines
count_lines_full zero ls h le = refl
count_lines_full (suc n) [] h le = absurd (omega arith)
count_lines_full (suc n) (l ∷ ls) h le =
    rw
      (
        not_empty l (unlines ls),
        split_at_first 10 l (unlines ls) h.0,
        count_lines_full n ls h.1 (omega arith),
      )
      refl

-- The newlines of a text.
abbrev newlines : Text → ℕ
newlines [] = 0
newlines (c ∷ s) = if c == 10 then suc (newlines s) else newlines s

newlines-append : (s t : Text) → newlines (s ++ t) ≡ newlines s + newlines t
newlines-append [] t = omega arith
newlines-append (c ∷ s) t = ground (arith, newlines-append s t)

newlines-reverse_aux : (s t : Text) → newlines (reverse_aux s t) ≡ newlines s + newlines t
newlines-reverse_aux [] t = omega arith
newlines-reverse_aux (c ∷ s) t = ground (arith, newlines-reverse_aux s (c ∷ t))

length-reverse_aux : (s t : Text) → length (reverse_aux s t) ≡ length s + length t
length-reverse_aux [] t = omega arith
length-reverse_aux (c ∷ s) t = omega (arith, length-reverse_aux s (c ∷ t))

newlines_none : (l : Text) → Without 10 l → newlines l ≡ 0
newlines_none [] h = refl
newlines_none (c ∷ l) h = ground (arith, newlines_none l h.1, h.0)

newlines-unlines : (ls : List Text) → AreLines ls → newlines (unlines ls) ≡ length ls
newlines-unlines [] h = refl
newlines-unlines (l ∷ ls) h =
    newlines-append l (10 ∷ unlines ls)
    ∙ omega (arith, newlines_none l h.0, newlines-unlines ls h.1)

scan_back_step :
    (found c : ℕ) (s : Text)
    → found < 50
    → 0 < length s
    → scan_back found (c ∷ s) ≡ scan_back (if c == 10 then found + 1 else found) s
unfolding scan_back
scan_back_step found c [] h lt = absurd (omega arith)
scan_back_step found c (d ∷ s) h lt = ground arith

scan_back_stop : (s : Text) → 0 < length s → scan_back 50 s ≡ (50, length s - 1)
unfolding scan_back
scan_back_stop [] h = absurd (omega arith)
scan_back_stop (c ∷ []) h = refl
scan_back_stop (c ∷ d ∷ s) h = ground arith

-- The scan ends in front of the fiftieth newline, where there is a byte.
scan_back_lem :
    (found : ℕ) (s t : Text)
    → found + newlines s ≡ 49
    → 0 < length t
    → scan_back found (s ++ 10 ∷ t) ≡ (50, length t - 1)
scan_back_lem found [] t e lt =
    scan_back_step found 10 t (omega arith) lt
    ∙ (let f : found + 1 ≡ 50 = omega arith in rw f (scan_back_stop t lt))
scan_back_lem found (c ∷ s) t e lt =
    scan_back_step found c (s ++ 10 ∷ t) (ground (arith, e))
      (omega (arith, length-append {0} s (10 ∷ t)))
    ∙ scan_back_lem (if c == 10 then found + 1 else found) s t (ground (arith, e)) lt

-- The text of some lines without its last newline.
unlines_last :
    (l : Text) (ls : List Text)
    → (s : Text) × (unlines (l ∷ ls) ≡ s ++ 10 ∷ []) × (length ls ≤ length s)
unlines_last l [] = (l, refl, omega arith)
unlines_last l (m ∷ ls) =
    let (s, e, le) = unlines_last m ls in
    (
      l ++ 10 ∷ s,
      ap (λ (t : Text). l ++ 10 ∷ t) e ∙ sym (append_assoc l (10 ∷ s) (10 ∷ [])),
      omega (arith, length-append {0} l (10 ∷ s), le),
    )

drop-append : (s t : Text) → drop (length s) (s ++ t) ≡ t
drop-append [] t = refl
drop-append (c ∷ s) t = drop-append s t

last_lines_lem :
    (s : Text) (ls : List Text)
    → AreLines ls
    → length ls ≡ 49
    → 0 < length s
    → last_lines ((s ++ 10 ∷ []) ++ unlines ls) ≡ unlines ls
unfolding last_lines
last_lines_lem s ls h e lt =
    let back = reverse (unlines ls) in
    let front = reverse s in
    let turned : reverse ((s ++ 10 ∷ []) ++ unlines ls) ≡ back ++ 10 ∷ front =
      reverse-append (s ++ 10 ∷ []) (unlines ls)
      ∙ ap (λ (t : Text). back ++ t) (reverse-append s (10 ∷ [])) in
    let counted : newlines back ≡ 49 =
      newlines-reverse_aux (unlines ls) [] ∙ omega (arith, newlines-unlines ls h, e) in
    let long : length front ≡ length s = length-reverse_aux s [] ∙ omega arith in
    let scanned = scan_back_lem 0 back front (omega (arith, counted)) (omega (arith, long)) in
    let start : length front - 1 + 2 ≡ length (s ++ 10 ∷ []) =
      omega (arith, long, length-append {0} s (10 ∷ [])) in
    rw (turned, scanned, last_lines, start) (drop-append (s ++ 10 ∷ []) (unlines ls))

last_lines-unlines :
    (ks ls : List Text)
    → AreLines ls
    → length ls ≡ 49
    → 1 < length ks
    → last_lines (unlines (ks ++ ls)) ≡ unlines ls
last_lines-unlines [] ls h e lt = absurd (omega arith)
last_lines-unlines (k ∷ ks) ls h e lt =
    let (s, u, le) = unlines_last k ks in
    ap last_lines (unlines-append (k ∷ ks) ls)
    ∙ subst (λ (t : Text). last_lines (t ++ unlines ls) ≡ unlines ls) (sym u)
        (last_lines_lem s ls h e (omega arith))

-- Of a log of more than 50 lines, each ended by a newline, show_log prints the last 49.
pub print_log_lem :
    (ls : List Text)
    → AreLines ls
    → 50 < length ls
    → print_log (unlines ls) ≡ unlines (drop (length ls - 49) ls)
unfolding print_log
print_log_lem ls h lt =
    let n = length ls - 49 in
    rw (count_lines_full 50 ls h (omega arith)) (
      ap (λ (t : List Text). last_lines (unlines t)) (sym (take-append-drop n ls))
      ∙ last_lines-unlines (take n ls) (drop n ls) (AreLines-drop n ls h)
          (length-drop n ls ∙ omega arith) (omega (arith, length-take n ls)))
