-- ===== src/Lumid/Log/Shown.antt =====
-- `lumictl log lumid` at the log that lumid has written.
use lumi_os.Base.{
  ◌-◌, ◌<◌, ◌≤◌, ◌≡◌, ◌⊎◌, refl, ap, ◌∙◌, inl, inr, Bool, true, Option, some, List, [], ◌∷◌, ◌++◌,
  pos, neg, Text, text_eq, codes, Bool-cases, ltb, ltb→lt, length, drop, unlines, arith,
}
use lumi_os.Lumid.Log.{Log, log_path}
use lumi_os.Lumid.Log.Entries.{
  Message, log_each, log_each-file, kept, AreOneLine, log_each-print_log,
}
use lumi_os.Lumid.Ipc.{Request}
use lumi_os.Lumid.Lumictl.{ran, content, no_log, Exchange, show_log, run_command, lumictl}
use lumi_os.Lumid.Lumictl.Log.{max_read, util_read_file, print_log}

show_log-cases :
    (name bytes : Text)
    → ((length bytes ≤ max_read)
        × (show_log name (some bytes) ≡ ran (pos 0) (content (print_log bytes) ∷ [])))
      ⊎ ((max_read < length bytes) × (show_log name (some bytes) ≡ ran (neg 1) (no_log name ∷ [])))
unfolding show_log util_read_file
show_log-cases name bytes = elim (Bool-cases (ltb max_read (length bytes))) [
  | inl e ↦ inr (ltb→lt max_read (length bytes) e, rw (e, show_log, util_read_file) refl)
  | inr e ↦ inl (ground arith, rw (e, show_log, util_read_file) refl)
]

-- LUMID_LOG_DIR
abbrev pub log_dir : Text
log_dir = codes "/var/log/lumid"

log_command :
    (tty : Bool) (file_of : Text → Option Text) (link : Request → Exchange)
    → lumictl tty file_of link (codes "log" ∷ codes "lumid" ∷ [])
      ≡ show_log (codes "lumid") (file_of (log_path log_dir))
unfolding lumictl run_command text_eq log_path
log_command tty file_of link = refl

-- Messages of one line are logged into an open and empty file lumid.log in /var/log/lumid. Those
-- below the level leave no entry. Where more than 50 are left, `lumictl log lumid` at that file
-- exits with 0 and prints the entries of the last 49 of them, whole and in order, if the entries with
-- their newlines have at most 1 MiB; and it exits with -1 and says that there is no log, if they have
-- more.
pub log_each-lumictl :
    (is_tty tty : Bool) (ms : List Message) (l : Log) (file_of : Text → Option Text)
    (link : Request → Exchange)
    → l.is_open ≡ true
    → l.file ≡ []
    → AreOneLine ms
    → 50 < length (kept l.level ms)
    → file_of (log_path log_dir) ≡ some (log_each is_tty ms l).file
    → let k = kept l.level ms in
      let shown = lumictl tty file_of link (codes "log" ∷ codes "lumid" ∷ []) in
      ((length (unlines k) ≤ max_read)
        × (shown ≡ ran (pos 0) (content (unlines (drop (length k - 49) k)) ∷ [])))
      ⊎ ((max_read < length (unlines k)) × (shown ≡ ran (neg 1) (no_log (codes "lumid") ∷ [])))
log_each-lumictl is_tty tty ms l file_of link o e h lt f =
    let written : (log_each is_tty ms l).file ≡ unlines (kept l.level ms) =
      log_each-file is_tty ms l o ∙ ap (λ (t : Text). t ++ unlines (kept l.level ms)) e in
    let printed = log_each-print_log is_tty ms l o e h lt in
    let shown : lumictl tty file_of link (codes "log" ∷ codes "lumid" ∷ [])
        ≡ show_log (codes "lumid") (some (log_each is_tty ms l).file) =
      log_command tty file_of link ∙ ap (show_log (codes "lumid")) f in
    let long = ap (λ (t : Text). length t) written in
    elim (show_log-cases (codes "lumid") (log_each is_tty ms l).file) [
      | inl (le, s) ↦
          inl (
            omega (arith, long),
            shown ∙ s ∙ ap (λ (t : Text). ran (pos 0) (content t ∷ [])) printed,
          )
      | inr (gt, s) ↦ inr (omega (arith, long), shown ∙ s)
    ]
