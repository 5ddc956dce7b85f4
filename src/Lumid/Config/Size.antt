-- ===== src/Lumid/Config/Size.antt =====
-- util_parse_size of system/core/lumid/src/util.c: sizes with a suffix, such as 512M.
use lumi_os.Base.{
  ℕ, suc, ◌-◌, ◌*◌, ◌%◌, ◌^◌, ◌||◌, Option, none, some, [], ◌∷◌, ℤ, pos, negsuc, Text, strtoll,
  if◌then◌else◌, ◌==◌, ltb,
}

-- util_parse_size: int64_t arithmetic, which wraps on the machines that lumid runs on.
wrap_i64 : ℤ → ℤ
wrap_i64 (pos n) = let r = n % 2 ^ 64 in if ltb r (2 ^ 63) then pos r else negsuc (2 ^ 64 - 1 - r)
wrap_i64 (negsuc n) =
    let r = n % 2 ^ 64 in if ltb r (2 ^ 63) then negsuc r else pos (2 ^ 64 - 1 - r)

scale : ℕ → ℤ → ℤ
unfolding wrap_i64
scale k (pos n) = wrap_i64 (pos (n * k))
scale k (negsuc n) = wrap_i64 (negsuc (suc n * k - 1))

-- toupper of the suffix: `none` for a byte that is no suffix.
suffix_scale : Text → Option ℕ
suffix_scale [] = some 1
suffix_scale (c ∷ s) =
    if c == b'K' || c == b'k'
    then some (2 ^ 10)
    else if c == b'M' || c == b'm'
    then some (2 ^ 20)
    else if c == b'G' || c == b'g'
    then some (2 ^ 30)
    else if c == b'T' || c == b't'
    then some (2 ^ 40)
    else if c == 10 || c == 13
    then some 1
    else none

-- strtoll stops at the ends of int64_t.
clamp_i64 : ℤ → ℤ
clamp_i64 (pos n) = if ltb n (2 ^ 63) then pos n else pos (2 ^ 63 - 1)
clamp_i64 (negsuc n) = if ltb n (2 ^ 63) then negsuc n else negsuc (2 ^ 63 - 1)

unfoldable pub parse_size : Text → Option ℤ
unfolding scale suffix_scale clamp_i64
parse_size s = elim (strtoll s) [
  | none ↦ none
  | some (n, rest) ↦ elim (suffix_scale rest) [
    | none ↦ none
    | some k ↦ some (scale k (clamp_i64 n))
  ]
]
