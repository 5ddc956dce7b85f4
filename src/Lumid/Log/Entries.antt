-- ===== src/Lumid/Log/Entries.antt =====
-- What stands in the log file, and what `lumictl log lumid` prints of it.
use lumi_os.Base.{
  ℕ, zero, suc, ◌-◌, ◌<◌, ◌≤◌, ◌≡◌, refl, sym, ap, ◌∙◌, Bool, true, List, [], ◌∷◌, ◌++◌,
  append_assoc, append-nil, Text, codes, inl, inr, Bool-cases, ltb, if◌then◌else◌, length,
  length-append, length-take, take, take_all, drop, replicate, print_in, Without, Without-append,
  Without-AreSolid, AreSolid-print_in, unlines, AreLines, arith,
}
use lumi_os.Lumid.Log.{
  LogLevel, debug, info, warn, error, fatal, number_of, level_str, Time, Log, padded, timebuf,
  msgbuf, entry, linebuf, linebuf_size, log_write,
}
use lumi_os.Lumid.Lumictl.Log.{print_log}
use lumi_os.Lumid.Lumictl.Log.Last.{print_log_lem}

Without-take : (n c : ℕ) (s : Text) → Without c s → Without c (take n s)
Without-take zero c s h = tt
Without-take (suc n) c [] h = tt
Without-take (suc n) c (d ∷ s) h = (h.0, Without-take n c s h.1)

Without-zeros : (n : ℕ) → Without 10 (replicate n b'0')
Without-zeros zero = tt
Without-zeros (suc n) = (λ e. omega arith, Without-zeros n)

Without-padded : (width n : ℕ) → Without 10 (padded width n)
unfolding padded
Without-padded width n =
    Without-append 10 (replicate (width - length (print_in 10 n)) b'0') (print_in 10 n)
      (Without-zeros _)
      (Without-AreSolid (print_in 10 n) (AreSolid-print_in 10 n (omega arith) (omega arith)))

-- One more field of the time, behind its separator.
Without-after :
    (s t : Text) (c : ℕ) → Without 10 s → 10 < c → Without 10 t → Without 10 (s ++ c ∷ t)
Without-after s t c h lt k = Without-append 10 s (c ∷ t) h (λ e. omega arith, k)

Without-timebuf : (t : Time) → Without 10 (timebuf t)
unfolding timebuf
Without-timebuf t =
    let p = Without-padded in
    Without-take 31 10 _ (
      Without-after (padded 4 t.year) _ b'-' (p 4 t.year) (omega arith) (
        Without-after (padded 2 t.month) _ b'-' (p 2 t.month) (omega arith) (
          Without-after (padded 2 t.day) _ b' ' (p 2 t.day) (omega arith) (
            Without-after (padded 2 t.hour) _ b':' (p 2 t.hour) (omega arith) (
              Without-after (padded 2 t.minute) _ b':' (p 2 t.minute) (omega arith) (
                Without-after (padded 2 t.second) _ b'.' (p 2 t.second) (omega arith)
                  (p 3 t.milli)))))))

Without-level_str : (level : LogLevel) → Without 10 (level_str level)
unfolding level_str
Without-level_str debug = omega arith
Without-level_str info = omega arith
Without-level_str warn = omega arith
Without-level_str error = omega arith
Without-level_str fatal = omega arith

length-level_str : (level : LogLevel) → length (level_str level) ≡ 5
unfolding level_str
length-level_str debug = refl
length-level_str info = refl
length-level_str warn = refl
length-level_str error = refl
length-level_str fatal = refl

Without-entry :
    (now : Time) (level : LogLevel) (msg : Text) → Without 10 msg → Without 10 (entry now level msg)
unfolding entry msgbuf
Without-entry now level msg h = Without-append 10 (codes "[") _ (omega arith) (
    Without-append 10 (timebuf now) _ (Without-timebuf now) (
      Without-append 10 (codes "] [") _ (omega arith) (
        Without-append 10 (level_str level) _ (Without-level_str level)
          (Without-append 10 (codes "] ") _ (omega arith) (Without-take 1023 10 msg h)))))

length-take_le : (n : ℕ) (s : Text) → length (take n s) ≤ n
length-take_le n s = omega (arith, length-take n s)

length-timebuf : (t : Time) → length (timebuf t) ≤ 31
unfolding timebuf
length-timebuf t = length-take_le 31 _

length-entry : (now : Time) (level : LogLevel) (msg : Text) → length (entry now level msg) ≤ 1065
unfolding entry msgbuf
length-entry now level msg =
    let m = take 1023 msg in
    let a = length-take 1023 msg in
    let b = length-append {0} (level_str level) (codes "] " ++ m) in
    let c =
      length-append {0} (timebuf now) (codes "] [" ++ (level_str level ++ (codes "] " ++ m))) in
    omega (arith, a, b, c, length-timebuf now, length-level_str level)

-- Every entry, with its newline, fits in linebuf, whatever the message: all of it is written, and
-- `len` does not pass the size of the array.
linebuf_fits :
    (now : Time) (level : LogLevel) (msg : Text)
    → ((linebuf now level msg).0 ≡ entry now level msg ++ 10 ∷ [])
      × ((linebuf now level msg).1 < linebuf_size)
unfolding linebuf
linebuf_fits now level msg =
    let n = length-append {0} (entry now level msg) (10 ∷ []) in
    let h = length-entry now level msg in
    (
      take_all (linebuf_size - 1) (entry now level msg ++ 10 ∷ []) (omega (arith, n, h)),
      omega (arith, n, h),
    )

-- The arguments of one call of log_write.
pub record Message : Type 0 where
  pub now : Time
  pub level : LogLevel
  pub text : Text

abbrev pub log_each : Bool → List Message → Log → Log
log_each is_tty [] l = l
log_each is_tty (m ∷ ms) l = log_each is_tty ms (log_write is_tty m.now m.level m.text l)

-- The entries of the messages that are not below the level.
unfoldable pub kept : LogLevel → List Message → List Text
kept level [] = []
kept level (m ∷ ms) =
    let rest = kept level ms in
    if ltb (number_of m.level) (number_of level) then rest else entry m.now m.level m.text ∷ rest

abbrev pub AreOneLine : List Message → Type 0
AreOneLine [] = Unit
AreOneLine (m ∷ ms) = Without 10 m.text × AreOneLine ms

AreLines-kept : (level : LogLevel) (ms : List Message) → AreOneLine ms → AreLines (kept level ms)
unfolding kept
AreLines-kept level [] h = tt
AreLines-kept level (m ∷ ms) h = elim (Bool-cases (ltb (number_of m.level) (number_of level))) [
  | inl e ↦ rw (e, kept) (AreLines-kept level ms h.1)
  | inr e ↦ rw (e, kept) (Without-entry m.now m.level m.text h.0, AreLines-kept level ms h.1)
]

log_write-file :
    (is_tty : Bool) (now : Time) (level : LogLevel) (msg : Text) (l : Log)
    → l.is_open ≡ true
    → (log_write is_tty now level msg l).file ≡ (
        if ltb (number_of level) (number_of l.level)
        then l.file
        else l.file ++ (entry now level msg ++ 10 ∷ []))
unfolding log_write
log_write-file is_tty now level msg l o =
    elim (Bool-cases (ltb (number_of level) (number_of l.level))) [
      | inl e ↦ rw (e, log_write) refl
      | inr e ↦ rw (e, log_write, o) (ap (λ (t : Text). l.file ++ t) (linebuf_fits now level msg).0)
    ]

log_write-level :
    (is_tty : Bool) (now : Time) (level : LogLevel) (msg : Text) (l : Log)
    → ((log_write is_tty now level msg l).level ≡ l.level)
      × ((log_write is_tty now level msg l).is_open ≡ l.is_open)
unfolding log_write
log_write-level is_tty now level msg l = ground arith

pub log_each-file :
    (is_tty : Bool) (ms : List Message) (l : Log)
    → l.is_open ≡ true
    → (log_each is_tty ms l).file ≡ l.file ++ unlines (kept l.level ms)
unfolding kept
log_each-file is_tty [] l o = sym (append-nil l.file)
log_each-file is_tty (m ∷ ms) l o =
    let l' = log_write is_tty m.now m.level m.text l in
    let (same, still) = log_write-level is_tty m.now m.level m.text l in
    let added = log_write-file is_tty m.now m.level m.text l o in
    let ih : (log_each is_tty ms l').file ≡ l'.file ++ unlines (kept l.level ms) =
      log_each-file is_tty ms l' (still ∙ o)
      ∙ ap (λ (k : LogLevel). l'.file ++ unlines (kept k ms)) same in
    elim (Bool-cases (ltb (number_of m.level) (number_of l.level))) [
      | inl e ↦
          let f : l'.file ≡ l.file = added ∙ (rw e refl) in
          rw (e, kept) (ih ∙ ap (λ (t : Text). t ++ unlines (kept l.level ms)) f)
      | inr e ↦
          let line = entry m.now m.level m.text in
          let f : l'.file ≡ l.file ++ (line ++ 10 ∷ []) = added ∙ (rw e refl) in
          let more = unlines (kept l.level ms) in
          rw (e, kept)
            (ih
              ∙ ap (λ (t : Text). t ++ more) f
              ∙ append_assoc l.file (line ++ 10 ∷ []) more
              ∙ ap (λ (t : Text). l.file ++ t) (append_assoc line (10 ∷ []) more))
    ]

-- Of messages of one line that are logged into an open and empty file, those below the level leave
-- no entry; and where more than 50 are left, print_log gives of that file the entries of the last 49
-- of them, whole and in order.
pub log_each-print_log :
    (is_tty : Bool) (ms : List Message) (l : Log)
    → l.is_open ≡ true
    → l.file ≡ []
    → AreOneLine ms
    → 50 < length (kept l.level ms)
    → let k = kept l.level ms in
      print_log (log_each is_tty ms l).file ≡ unlines (drop (length k - 49) k)
log_each-print_log is_tty ms l o e h lt =
    ap print_log (log_each-file is_tty ms l o ∙ ap (λ (t : Text). t ++ unlines (kept l.level ms)) e)
    ∙ print_log_lem (kept l.level ms) (AreLines-kept l.level ms h) lt
