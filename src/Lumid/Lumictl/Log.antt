-- ===== src/Lumid/Lumictl/Log.antt =====
-- show_log of system/core/lumid/src/lumictl.c on the bytes of a log file: which part it prints; and
-- util_read_file of util.c, where malloc does not fail.
pub mod Last
use lumi_os.Base.{
  ℕ, zero, suc, ◌+◌, ◌*◌, Bool, true, false, Option, none, some, List, [], ◌∷◌, reverse, Text,
  is_empty, split_at, ltb, leb, ◌==◌, if◌then◌else◌, length, drop,
}

-- "1MB max"
abbrev pub max_read : ℕ
max_read = 1024 * 1024

-- The bytes of the file are `none` where it cannot be opened or read.
unfoldable pub util_read_file : Option Text → Option Text
util_read_file none = none
util_read_file (some bytes) = if ltb max_read (length bytes) then none else some bytes

-- The first loop: how many of at most `room` lines there are.
unfoldable pub count_lines : ℕ → Text → ℕ
count_lines zero s = 0
count_lines (suc room) s =
    if is_empty s
    then 0
    else elim (split_at 10 s) [ none ↦ 1 | some (line, rest) ↦ suc (count_lines room rest) ]

-- The second loop, from `found` newlines on: the bytes from `p` back to the start of the content,
-- and at its end `found` and the index `p`.
unfoldable pub scan_back : ℕ → Text → ℕ × ℕ
scan_back found [] = (found, 0)
scan_back found (c ∷ []) = (found, 0)
scan_back found (c ∷ d ∷ s) =
    let further = scan_back (if c == 10 then found + 1 else found) (d ∷ s) in
    if ltb found 50 then further else (found, suc (length s))

last_lines : Text → Text
unfolding scan_back
last_lines content =
    let (found, p) = scan_back 0 (reverse content) in
    drop (if leb 50 found then p + 2 else p) content

unfoldable pub print_log : Text → Text
unfolding count_lines last_lines
print_log content = if leb 50 (count_lines 50 content) then last_lines content else content
