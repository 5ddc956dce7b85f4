-- ===== src/Lumid/Log.antt =====
-- The log of system/core/lumid/src/log.c, and log_level_t of include/lumid.h, in a build without
-- LUMID_DEBUG.
--
-- A message is what vsnprintf makes of the format and its arguments, with no NUL in it. The time is a parameter, and
-- `write` takes all the bytes that it is given.
pub mod Entries
pub mod Shown
mod Tests
use lumi_os.Base.{
  ℕ, ◌+◌, ◌-◌, Bool, true, false, Option, none, some, List, [], ◌∷◌, ◌++◌, Text, codes, ltb,
  if◌then◌else◌, length, take, replicate, print_in,
}
use lumi_os.Lumid.Types.{max_path_len, max_line_len}

pub data LogLevel : Type 0 where
  debug info warn error fatal : LogLevel

abbrev pub number_of : LogLevel → ℕ
number_of debug = 0
number_of info = 1
number_of warn = 2
number_of error = 3
number_of fatal = 4

pub level_str : LogLevel → Text
level_str debug = codes "DEBUG"
level_str info = codes "INFO "
level_str warn = codes "WARN "
level_str error = codes "ERROR"
level_str fatal = codes "FATAL"

-- The digits behind "\033[" and in front of "m".
level_color : LogLevel → Text
level_color debug = codes "36"
level_color info = codes "32"
level_color warn = codes "33"
level_color error = codes "31"
level_color fatal = codes "35"

-- What localtime_r gives, with tm_year + 1900 and tm_mon + 1, and the milliseconds.
pub record Time : Type 0 where
  pub year : ℕ
  pub month : ℕ
  pub day : ℕ
  pub hour : ℕ
  pub minute : ℕ
  pub second : ℕ
  pub milli : ℕ

-- g_log_level, whether g_log_fd is open, g_log_dir, the bytes of the file, and those that went to
-- stderr.
pub record Log : Type 0 where
  pub level : LogLevel
  pub is_open : Bool
  pub dir : Text
  pub file : Text
  pub stderr : Text

unfoldable pub log_path : Text → Text
log_path dir = take (max_path_len - 1) (dir ++ codes "/lumid.log")

-- `opens` gives the bytes of the file that open finds or makes, or none where it fails.
pub log_init : (Text → Option Text) → Option Text → Log → Log
unfolding log_path
log_init opens none l = l
log_init opens (some dir) l = elim (opens (log_path dir)) [
  | none ↦ record l { dir = take (max_path_len - 1) dir; is_open = false }
  | some bytes ↦ record l { dir = take (max_path_len - 1) dir; is_open = true; file = bytes }
]

pub log_set_level : LogLevel → Log → Log
log_set_level level l = record l { level = level }

-- %0<width>d
pub padded : ℕ → ℕ → Text
padded width n = replicate (width - length (print_in 10 n)) b'0' ++ print_in 10 n

pub timebuf : Time → Text
unfolding padded
timebuf t = take 31 (
    padded 4 t.year
    ++ b'-'
      ∷ (padded 2 t.month
          ++ b'-'
            ∷ (padded 2 t.day
                ++ b' '
                  ∷ (padded 2 t.hour
                      ++ b':'
                        ∷ (padded 2 t.minute
                            ++ b':' ∷ (padded 2 t.second ++ b'.' ∷ padded 3 t.milli))))))

pub msgbuf : Text → Text
msgbuf msg = take (max_line_len - 1) msg

-- "[%s] [%s] %s", with the newline of the format left off.
pub entry : Time → LogLevel → Text → Text
unfolding timebuf level_str msgbuf
entry now level msg =
    codes "[" ++ (timebuf now ++ (codes "] [" ++ (level_str level ++ (codes "] " ++ msgbuf msg))))

colored : Time → LogLevel → Text → Text
unfolding timebuf level_str level_color msgbuf
colored now level msg =
    27
    ∷ (codes "["
        ++ (level_color level
            ++ (codes "m["
                ++ (timebuf now
                    ++ (codes "]"
                        ++ 27
                          ∷ (codes "[0m [" ++ (level_str level ++ (codes "] " ++ msgbuf msg))))))))

-- sizeof (linebuf)
abbrev pub linebuf_size : ℕ
linebuf_size = max_line_len + 64

-- The bytes in linebuf, and `len`.
pub linebuf : Time → LogLevel → Text → Text × ℕ
unfolding entry
linebuf now level msg =
    let line = entry now level msg ++ 10 ∷ [] in (take (linebuf_size - 1) line, length line)

pub log_write : Bool → Time → LogLevel → Text → Log → Log
unfolding linebuf colored entry
log_write is_tty now level msg l =
    if ltb (number_of level) (number_of l.level) then l else record l {
      stderr =
          l.stderr ++ ((if is_tty then colored now level msg else entry now level msg) ++ 10 ∷ []);
      file = if l.is_open then l.file ++ (linebuf now level msg).0 else l.file;
    }

pub log_close : Log → Log
log_close l = record l { is_open = false }
