-- ===== src/Lumid/Log/Tests.antt =====
-- One message, logged once and 51 times.
use lumi_os.Base.{
  ◌∷◌, Text, ◌≤◌, ◌⊎◌, Option, none, pos, neg, text_eq, if◌then◌else◌, ℕ, zero, suc, ◌-◌, ◌<◌, ◌≡◌,
  refl, true, false, some, List, [], codes, length, drop, replicate, unlines, arith, print_in,
  print_from,
}
use lumi_os.Lumid.Log.Shown.{log_dir, log_each-lumictl}
use lumi_os.Lumid.Ipc.{Request}
use lumi_os.Lumid.Lumictl.{Exchange, refused, ran, content, no_log, lumictl}
use lumi_os.Lumid.Lumictl.Log.{max_read}
use lumi_os.Lumid.Log.{Time, Log, debug, info, warn, entry, log_init, log_path, log_write}
use lumi_os.Lumid.Log.Entries.{Message, log_each, kept, AreOneLine}

abbrev noon : Time
noon = record { year = 2026; month = 3; day = 1; hour = 12; minute = 0; second = 7; milli = 45 }

abbrev closed : Log
closed = record { level = info; is_open = false; dir = []; file = []; stderr = [] }

abbrev opened : Log
opened = record {
  level = info;
  is_open = true;
  dir = codes "/var/log/lumid";
  file = [];
  stderr = [];
}

init : log_init (λ p. some []) (some (codes "/var/log/lumid")) closed ≡ opened
unfolding log_init
init = refl

log_entry : entry noon warn (codes "low") ≡ codes "[2026-03-01 12:00:07.045] [WARN ] low"
unfolding entry print_in print_from
log_entry = refl

-- A message below the level changes nothing.
quiet : log_write true noon debug (codes "x") opened ≡ opened
unfolding log_write
quiet = refl

abbrev low : Message
low = record { now = noon; level = warn; text = codes "low" }

abbrev many : List Message
many = replicate 51 low

same_line : (n : ℕ) → AreOneLine (replicate n low)
same_line zero = tt
same_line (suc n) = (omega arith, same_line n)

enough : 50 < length (kept info many)
unfolding kept
enough = omega arith

-- The file system holds the log.
abbrev log_only : Text → Option Text
log_only path =
    if text_eq path (log_path log_dir) then some (log_each false many opened).file else none

log_only_found : log_only (log_path log_dir) ≡ some (log_each false many opened).file
unfolding text_eq log_path
log_only_found = refl

abbrev no_link : Request → Exchange
no_link req = refused

log_each-lumictl_example :
    let k = kept info many in
    let shown = lumictl false log_only no_link (codes "log" ∷ codes "lumid" ∷ []) in
    ((length (unlines k) ≤ max_read)
      × (shown ≡ ran (pos 0) (content (unlines (drop (length k - 49) k)) ∷ [])))
    ⊎ ((max_read < length (unlines k)) × (shown ≡ ran (neg 1) (no_log (codes "lumid") ∷ [])))
log_each-lumictl_example =
    log_each-lumictl false false many opened log_only no_link refl refl (same_line 51) enough
      log_only_found
