-- ===== src/Sandbox/Landlock/Rights.antt =====
-- What the ruleset of a policy gives.
use lumi_os.Base.{ℕ, ◌+◌, ◌/◌, ◌%◌, ◌^◌, ◌≡◌, Bool, false, if◌then◌else◌, arith}
use lumi_os.Sandbox.Landlock.{bit, sbx_to_landlock}

-- The rights of the kernel that each flag gives, bit by bit.
pub record Grants (flags rights : ℕ) : Type 0 where
  pub execute : bit rights 0 ≡ bit flags 2
  pub write_file : bit rights 1 ≡ bit flags 1
  pub read_file : bit rights 2 ≡ bit flags 0
  pub read_dir : bit rights 3 ≡ bit flags 0
  pub remove_dir : bit rights 4 ≡ bit flags 4
  pub remove_file : bit rights 5 ≡ bit flags 4
  pub make_dir : bit rights 7 ≡ bit flags 3
  pub make_reg : bit rights 8 ≡ bit flags 3
  pub truncate : bit rights 13 ≡ bit flags 5
  pub make_char : bit rights 6 ≡ false
  pub make_others : rights / 2 ^ 9 % 2 ^ 4 ≡ 0
  pub no_more : rights / 2 ^ 14 ≡ 0

sum_of : Bool → Bool → Bool → Bool → Bool → Bool → ℕ
sum_of a b c d e f =
    (if a then 2 ^ 2 + 2 ^ 3 else 0)
    + (if b then 2 ^ 1 else 0)
    + (if c then 2 ^ 0 else 0)
    + (if d then 2 ^ 8 + 2 ^ 7 else 0)
    + (if e then 2 ^ 5 + 2 ^ 4 else 0)
    + (if f then 2 ^ 13 else 0)

module _ (a b c d e f : Bool) where
  sum-execute : bit (sum_of a b c d e f) 0 ≡ c
  unfolding sum_of
  sum-execute = ground arith

  sum-write_file : bit (sum_of a b c d e f) 1 ≡ b
  unfolding sum_of
  sum-write_file = ground arith

  sum-read_file : bit (sum_of a b c d e f) 2 ≡ a
  unfolding sum_of
  sum-read_file = ground arith

  sum-read_dir : bit (sum_of a b c d e f) 3 ≡ a
  unfolding sum_of
  sum-read_dir = ground arith

  sum-remove_dir : bit (sum_of a b c d e f) 4 ≡ e
  unfolding sum_of
  sum-remove_dir = ground arith

  sum-remove_file : bit (sum_of a b c d e f) 5 ≡ e
  unfolding sum_of
  sum-remove_file = ground arith

  sum-make_dir : bit (sum_of a b c d e f) 7 ≡ d
  unfolding sum_of
  sum-make_dir = ground arith

  sum-make_reg : bit (sum_of a b c d e f) 8 ≡ d
  unfolding sum_of
  sum-make_reg = ground arith

  sum-truncate : bit (sum_of a b c d e f) 13 ≡ f
  unfolding sum_of
  sum-truncate = ground arith

  sum-make_char : bit (sum_of a b c d e f) 6 ≡ false
  unfolding sum_of
  sum-make_char = ground arith

  sum-make_others : sum_of a b c d e f / 2 ^ 9 % 2 ^ 4 ≡ 0
  unfolding sum_of
  sum-make_others = ground arith

  sum-no_more : sum_of a b c d e f / 2 ^ 14 ≡ 0
  unfolding sum_of
  sum-no_more = ground arith

-- Each of the six flags, and nothing else, gives its rights: READ reading files and directories,
-- WRITE writing, EXECUTE executing, CREATE making files and directories, DELETE removing them, and
-- TRUNCATE the right of bit 13. No other right is ever given.
sbx_to_landlock-Grants : (flags : ℕ) → Grants flags (sbx_to_landlock flags)
unfolding sbx_to_landlock sum_of
sbx_to_landlock-Grants flags =
    let a = bit flags 0 in
    let b = bit flags 1 in
    let c = bit flags 2 in
    let d = bit flags 3 in
    let e = bit flags 4 in
    let f = bit flags 5 in
    record {
      execute = sum-execute a b c d e f;
      write_file = sum-write_file a b c d e f;
      read_file = sum-read_file a b c d e f;
      read_dir = sum-read_dir a b c d e f;
      remove_dir = sum-remove_dir a b c d e f;
      remove_file = sum-remove_file a b c d e f;
      make_dir = sum-make_dir a b c d e f;
      make_reg = sum-make_reg a b c d e f;
      truncate = sum-truncate a b c d e f;
      make_char = sum-make_char a b c d e f;
      make_others = sum-make_others a b c d e f;
      no_more = sum-no_more a b c d e f;
    }
