-- ===== src/Lumid/Mount/Fstab.antt =====
-- What mount_fstab mounts.
use lumi_os.Base.{
  ℕ, ◌+◌, ◌<◌, ◌≤◌, ◌≡◌, refl, ap, ◌∙◌, inl, inr, Bool, true, false, some, List, [], ◌∷◌, ◌++◌,
  append_assoc, pos, Text, codes, is_empty, is_space, skip_spaces, field_solid, AreSolid, Without,
  Without-append, Without-AreSolid, contains, contains-append, lines, lines_from, lines-append,
  unlines, if◌then◌else◌, length, In, arith,
}
use lumi_os.Lumid.Types.{max_line_len}
use lumi_os.Lumid.Mount.{
  FstabEntry, MountEntry, MountCall, mkdir_p, mount, skip_blanks, is_skipped, scan_field,
  scan_fstab, is_virtual, mount_flags, mount_args, mount_one, fstab_line, fstab_lines, mount_fstab,
}

-- A field of a line that is read whole.
pub record IsField (max : ℕ) (s : Text) : Type 0 where
  pub solid : AreSolid s
  pub filled : is_empty s ≡ false
  pub fits : length s ≤ max

-- An entry with what stands behind its options, such as `0 0`.
pub record Line : Type 0 where
  pub entry : FstabEntry
  pub tail : Text

abbrev pub print_line : Line → Text
print_line l =
    l.entry.source
    ++ b' '
      ∷ (l.entry.target ++ b' ' ∷ (l.entry.fstype ++ b' ' ∷ (l.entry.options ++ b' ' ∷ l.tail)))

pub record IsFstabLine (l : Line) : Type 0 where
  pub source : IsField 255 l.entry.source
  pub target : IsField 255 l.entry.target
  pub fstype : IsField 63 l.entry.fstype
  pub options : IsField 255 l.entry.options
  pub no_comment : is_skipped l.entry.source ≡ false
  pub one_line : Without 10 l.tail
  pub short : length (print_line l) + 1 < max_line_len

abbrev pub AreFstabLines : List Line → Type 0
AreFstabLines [] = Unit
AreFstabLines (l ∷ ls) = IsFstabLine l × AreFstabLines ls

abbrev pub print_each : List Line → List Text
print_each [] = []
print_each (l ∷ ls) = print_line l ∷ print_each ls

-- The calls, the latest first.
abbrev pub mount_each : List Line → List MountCall → List MountCall
mount_each [] t = t
mount_each (l ∷ ls) t = mount_each ls (
    if is_virtual l.entry.fstype
    then t
    else mount (mount_args l.entry) ∷ mkdir_p l.entry.target ∷ t)

scan_field_lem :
    (max : ℕ) (s rest : Text)
    → IsField max s
    → scan_field max (s ++ b' ' ∷ rest) ≡ some (s, b' ' ∷ rest)
unfolding scan_field skip_spaces
scan_field_lem max [] rest f = absurd (let e = f.filled in cc)
scan_field_lem max (c ∷ s) rest f =
    let read = field_solid max (c ∷ s) rest f.solid f.fits in
    rw (f.solid.0, scan_field, skip_spaces, read) refl

scan_field-blank : (max : ℕ) (s : Text) → scan_field max (b' ' ∷ s) ≡ scan_field max s
unfolding scan_field skip_spaces is_space
scan_field-blank max s = refl

scan_next :
    (max : ℕ) (s rest : Text)
    → IsField max s
    → scan_field max (b' ' ∷ (s ++ b' ' ∷ rest)) ≡ some (s, b' ' ∷ rest)
scan_next max s rest f = scan_field-blank max (s ++ b' ' ∷ rest) ∙ scan_field_lem max s rest f

scan_fstab_lem :
    (l : Line) (more : Text)
    → IsFstabLine l
    → scan_fstab (print_line (record l { tail = more })) ≡ some l.entry
unfolding scan_fstab
scan_fstab_lem l more h =
    let e = l.entry in
    rw
      (
        scan_fstab,
        scan_field_lem 255 e.source
            (e.target ++ b' ' ∷ (e.fstype ++ b' ' ∷ (e.options ++ b' ' ∷ more))) h.source,
        scan_next 255 e.target (e.fstype ++ b' ' ∷ (e.options ++ b' ' ∷ more)) h.target,
        scan_next 63 e.fstype (e.options ++ b' ' ∷ more) h.fstype,
        scan_next 255 e.options more h.options,
      )
      refl

skip_blanks_solid :
    (s rest : Text) → AreSolid s → is_empty s ≡ false → skip_blanks (s ++ rest) ≡ s ++ rest
unfolding skip_blanks is_space
skip_blanks_solid [] rest h e = cc
skip_blanks_solid (c ∷ s) rest h e = ground (arith, h.0)

is_skipped-append : (s rest : Text) → is_skipped s ≡ false → is_skipped (s ++ rest) ≡ false
unfolding is_skipped
is_skipped-append [] rest h = absurd (cc)
is_skipped-append (c ∷ s) rest h = h

Without-print_line : (l : Line) → IsFstabLine l → Without 10 (print_line l)
Without-print_line l h =
    let e = l.entry in
    Without-append 10 e.source _ (Without-AreSolid e.source h.source.solid) (
      λ q. omega arith,
      Without-append 10 e.target _ (Without-AreSolid e.target h.target.solid) (
        λ q. omega arith,
        Without-append 10 e.fstype _ (Without-AreSolid e.fstype h.fstype.solid) (
          λ q. omega arith,
          Without-append 10 e.options _ (Without-AreSolid e.options h.options.solid)
              (λ q. omega arith, h.one_line),
        ),
      ),
    )

append_newline :
    (l : Line) → print_line l ++ 10 ∷ [] ≡ print_line (record l { tail = l.tail ++ 10 ∷ [] })
append_newline l = simp append_assoc

fstab_line_lem :
    (l : Line) (t : List MountCall)
    → IsFstabLine l
    → fstab_line (print_line l ++ 10 ∷ []) t ≡ mount_one l.entry t
unfolding fstab_line
fstab_line_lem l t h =
    let more = l.tail ++ 10 ∷ [] in
    let rest =
      b' '
      ∷ (l.entry.target ++ b' ' ∷ (l.entry.fstype ++ b' ' ∷ (l.entry.options ++ b' ' ∷ more))) in
    rw
      (
        append_newline l,
        fstab_line,
        skip_blanks_solid l.entry.source rest h.source.solid h.source.filled,
        is_skipped-append l.entry.source rest h.no_comment,
        scan_fstab_lem l more h,
      )
      refl

fstab_lines_lem :
    (ls : List Line) (t : List MountCall)
    → AreFstabLines ls
    → fstab_lines (lines max_line_len (unlines (print_each ls))) t ≡ mount_each ls t
unfolding fstab_lines mount_one
fstab_lines_lem [] t h = unfold lines lines_from in refl
fstab_lines_lem (l ∷ ls) t (h, hs) =
    let first =
      lines-append max_line_len (print_line l) (unlines (print_each ls)) (Without-print_line l h)
        h.short in
    rw (first, fstab_lines, fstab_line_lem l t h) (fstab_lines_lem ls (mount_one l.entry t) hs)

-- For a file of fstab with one line for each entry, whose fields are separated by a blank and fit,
-- mount_fstab returns 0, and the calls that it makes are those of the entries in order: none for an
-- entry of a virtual file system, and otherwise util_mkdir_p for its target and then mount with its
-- source, target, type and options.
pub mount_fstab_lem :
    (ls : List Line) (t : List MountCall)
    → AreFstabLines ls
    → mount_fstab (some (unlines (print_each ls))) t ≡ (pos 0, mount_each ls t)
unfolding mount_fstab
mount_fstab_lem ls t h = ap (λ (u : List MountCall). (pos 0, u)) (fstab_lines_lem ls t h)

In-if :
    (x : MountCall) (b : Bool) (c d : MountCall) (t : List MountCall)
    → In x t
    → In x (if b then t else c ∷ d ∷ t)
In-if x true c d t i = i
In-if x false c d t i = inr (inr i)

In-mount_each :
    (x : MountCall) (ls : List Line) (t : List MountCall) → In x t → In x (mount_each ls t)
In-mount_each x [] t i = i
In-mount_each x (l ∷ ls) t i =
    In-mount_each x ls _ (
      In-if x (is_virtual l.entry.fstype) (mount (mount_args l.entry)) (mkdir_p l.entry.target) t i)

mounted :
    (ls : List Line) (t : List MountCall) (l : Line)
    → In l ls
    → is_virtual l.entry.fstype ≡ false
    → In (mount (mount_args l.entry)) (mount_each ls t)
mounted [] t l i v = absurd i
mounted (k ∷ ls) t l (inl e) v = In-mount_each _ ls _ (rw (← e) (rw v (inl refl)))
mounted (k ∷ ls) t l (inr i) v = mounted ls _ l i v

read_only_anywhere :
    (e : FstabEntry) (p s : Text)
    → e.options ≡ p ++ (codes "ro" ++ s)
    → (mount_args e).flags.read_only ≡ true
unfolding mount_args mount_flags
read_only_anywhere e p s o =
    ap (λ (x : Text). contains (codes "ro") x) o ∙ contains-append p (codes "ro") s

-- An entry of such a file that is of no virtual file system, and in whose options the letters `ro`
-- stand anywhere, as in `rw,errors=remount-ro`, is mounted at its target with MS_RDONLY.
pub mount_fstab-read_only :
    (ls : List Line) (t : List MountCall) (l : Line) (p s : Text)
    → AreFstabLines ls
    → In l ls
    → is_virtual l.entry.fstype ≡ false
    → l.entry.options ≡ p ++ (codes "ro" ++ s)
    → (m : MountEntry) × In (mount m) (mount_fstab (some (unlines (print_each ls))) t).1
      × (m.target ≡ l.entry.target)
      × (m.flags.read_only ≡ true)
mount_fstab-read_only ls t l p s h i v o = (
  mount_args l.entry,
  rw (mount_fstab_lem ls t h) (mounted ls t l i v),
  unfold mount_args in refl,
  read_only_anywhere l.entry p s o,
)
