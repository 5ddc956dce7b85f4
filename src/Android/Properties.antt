-- ===== src/Android/Properties.antt =====
-- The system properties of the container: android-compat/container/src/properties.c.
--
-- The table is the list of the used entries of g_props; its arrays are zeroed and their last byte
-- is never written, so an entry holds the first 127 bytes of a key and the first 255 of a value.
-- A file is its bytes, with no NUL among them.
pub mod Map
pub mod Load
mod Tests
use lumi_os.Base.{
  ℕ, ◌+◌, Bool, true, false, ◌&&◌, ◌||◌, Option, none, some, List, [], ◌∷◌, ◌++◌, ℤ, pos, neg, Text,
  codes, text_eq, is_empty, split_at, lines, if◌then◌else◌, ltb, ◌==◌, length, take,
}

pub record Property : Type 0 where
  pub key : Text
  pub value : Text

abbrev pub Table : Type 0
Table = List Property

abbrev pub max_props : ℕ
max_props = 256

abbrev pub max_key : ℕ
max_key = 127

abbrev pub max_val : ℕ
max_val = 255

pub props_init : Table
props_init = []

-- The first loop of props_set: the table with the value written, where the key is found.
pub update_existing : Text → Text → Table → Option Table
update_existing key value [] = none
update_existing key value (p ∷ ps) =
    let rest = update_existing key value ps in
    if text_eq p.key key
    then some (record p { value = take max_val value } ∷ ps)
    else elim rest [ none ↦ none | some ps' ↦ some (p ∷ ps') ]

pub add_new : Text → Text → Table → ℤ × Table
add_new key value ps =
    if ltb (length ps) max_props
    then (pos 0, ps ++ (record { key = take max_key key; value = take max_val value } ∷ []))
    else (neg 1, ps)

pub props_set : Text → Text → Table → ℤ × Table
props_set key value ps = elim (update_existing key value ps) [
  | none ↦ add_new key value ps
  | some ps' ↦ (pos 0, ps')
]

-- `none` is NULL.
pub props_get : Text → Table → Option Text
props_get key [] = none
props_get key (p ∷ ps) =
    let rest = props_get key ps in if text_eq p.key key then some p.value else rest

pub defaults : List (Text × Text)
defaults =
    (codes "ro.build.display.id", codes "LumiOS-Android-14")
    ∷ (codes "ro.build.version.sdk", codes "34")
    ∷ (codes "ro.build.version.release", codes "14")
    ∷ (codes "ro.build.version.security_patch", codes "2026-02-01")
    ∷ (codes "ro.build.type", codes "userdebug")
    ∷ (codes "ro.build.host", codes "lumios-build")
    ∷ (codes "ro.product.model", codes "LumiOS Device")
    ∷ (codes "ro.product.brand", codes "LumiOS")
    ∷ (codes "ro.product.name", codes "lumios")
    ∷ (codes "ro.product.device", codes "generic_arm64")
    ∷ (codes "ro.product.manufacturer", codes "LumiOS Project")
    ∷ (codes "ro.product.cpu.abilist", codes "arm64-v8a")
    ∷ (codes "ro.product.cpu.abilist64", codes "arm64-v8a")
    ∷ (codes "ro.hardware", codes "generic_arm64")
    ∷ (codes "ro.board.platform", codes "lumios")
    ∷ (codes "ro.debuggable", codes "1")
    ∷ (codes "ro.secure", codes "0")
    ∷ (codes "ro.sf.lcd_density", codes "440")
    ∷ (codes "persist.sys.timezone", codes "Asia/Shanghai")
    ∷ (codes "persist.sys.language", codes "zh")
    ∷ (codes "persist.sys.country", codes "CN")
    ∷ (codes "dalvik.vm.heapsize", codes "512m")
    ∷ (codes "dalvik.vm.heapgrowthlimit", codes "256m")
    ∷ (codes "dalvik.vm.heapminfree", codes "8m")
    ∷ (codes "dalvik.vm.heapmaxfree", codes "32m")
    ∷ []

-- Calls of props_set in order; their results are not read.
pub set_each : List (Text × Text) → Table → Table
set_each [] ps = ps
set_each ((key, value) ∷ rest) ps = set_each rest (props_set key value ps).1

is_blank : ℕ → Bool
is_blank c = c == 32 || c == 9

pub skip_blanks : Text → Text
unfolding is_blank
skip_blanks [] = []
skip_blanks (c ∷ s) = if is_blank c then skip_blanks s else c ∷ s

pub drop_blanks : Text → Text
unfolding is_blank
drop_blanks [] = []
drop_blanks (c ∷ s) =
    let rest = drop_blanks s in if is_blank c && is_empty rest then [] else c ∷ rest

-- val[strcspn(val, "\n\r")] = '\0'
pub cut_line : Text → Text
cut_line [] = []
cut_line (c ∷ s) = if c == 10 || c == 13 then [] else c ∷ cut_line s

pub load_line : Text → Table → Table
load_line [] ps = ps
load_line (c ∷ s) ps = if c == b'#' || c == 10 then ps else elim (split_at b'=' (c ∷ s)) [
  | none ↦ ps
  | some (key, val) ↦ (props_set (drop_blanks (skip_blanks key)) (cut_line val) ps).1
]

pub load_lines : List Text → Table → Table
load_lines [] ps = ps
load_lines (l ∷ ls) ps = load_lines ls (load_line l ps)

pub load_file : Text → Table → Table
load_file bytes ps = load_lines (lines 512 bytes) ps

-- The file is `none` where fopen fails.
pub props_load_defaults : Option Text → Table → Table
props_load_defaults none ps = set_each defaults ps
props_load_defaults (some bytes) ps = load_file bytes (set_each defaults ps)
