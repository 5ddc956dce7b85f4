-- ===== src/Lumid/Mount/Initial.antt =====
-- When the early mounts fail, under a kernel whose answers do not depend on the calls before.
use lumi_os.Base.{
  ℕ, ◌+◌, ◌<◌, ◌∙◌, subst, ◌≡◌, ◌⊎◌, inl, inr, refl, Bool, true, false, List, [], ◌∷◌, pos, neg,
  is_negative, Text, In, if◌then◌else◌, arith,
}
use lumi_os.Lumid.Cgroup.{util_mkdir_p}
use lumi_os.Lumid.Mount.{
  MountEntry, MountCall, mkdir_p, mount, MountKernel, Answer, done, busy, refused, try_mount,
  try_each, early_mounts, mount_initial_filesystems,
}

abbrev is_refused : Answer → Bool
is_refused done = false
is_refused busy = false
is_refused refused = true

Missed : Bool → Bool → Answer → Type 0
Missed there unmade a = ((there ≡ false) × (unmade ≡ true)) ⊎ (a ≡ refused)

tried :
    Bool → Bool → Answer → ℕ → List MountCall → List MountCall → List MountCall → ℕ × List MountCall
tried there unmade a n t u v =
    if there
    then (elim a [ done ↦ n | busy ↦ n | refused ↦ n + 1 ], t)
    else if unmade
    then (n + 1, u)
    else (elim a [ done ↦ n | busy ↦ n | refused ↦ n + 1 ], v)

tried-cases :
    (there unmade : Bool) (a : Answer) (n : ℕ) (t u v : List MountCall)
    → (Missed there unmade a × ((tried there unmade a n t u v).0 ≡ n + 1))
      ⊎ ((¬ Missed there unmade a) × ((tried there unmade a n t u v).0 ≡ n))
unfolding Missed tried
tried-cases true unmade refused n t u v = inl (inr refl, refl)
tried-cases false true a n t u v = inl (inl (refl, refl), refl)
tried-cases false false refused n t u v = inl (inr refl, refl)
tried-cases true unmade done n t u v = inr (λ m. ground arith, refl)
tried-cases true unmade busy n t u v = inr (λ m. ground arith, refl)
tried-cases false false done n t u v = inr (λ m. ground arith, refl)
tried-cases false false busy n t u v = inr (λ m. ground arith, refl)

module _ (exists made : Text → Bool) (answer : MountEntry → Answer) where
  abbrev pub steady : MountKernel
  steady = record { exists = λ t. exists; made = λ t. made; answer = λ t. answer }

  -- The mount point is not there and cannot be made, or mount fails but for EBUSY.
  abbrev pub Fails : MountEntry → Type 0
  Fails m =
      ((exists m.target ≡ false) × (is_negative (util_mkdir_p made m.target).0 ≡ true))
      ⊎ (answer m ≡ refused)

  abbrev pub SomeFails : List MountEntry → Type 0
  SomeFails ms = (m : MountEntry) × In m ms × Fails m

  try_mount-cases :
      (m : MountEntry) (n : ℕ) (t : List MountCall)
      → (Fails m × ((try_mount steady m n t).0 ≡ n + 1))
        ⊎ ((¬ Fails m) × ((try_mount steady m n t).0 ≡ n))
  unfolding try_mount Missed tried
  try_mount-cases m n t =
      tried-cases (exists m.target) (is_negative (util_mkdir_p made m.target).0) (answer m) n
        (mount m ∷ t) (mkdir_p m.target ∷ t) (mount m ∷ mkdir_p m.target ∷ t)

  -- A count that grows stays above 0.
  try_each-cases :
      (ms : List MountEntry) (n : ℕ) (t : List MountCall)
      → (SomeFails ms × (n < (try_each steady ms n t).0))
        ⊎ ((¬ SomeFails ms) × ((try_each steady ms n t).0 ≡ n))
  unfolding try_each
  try_each-cases [] n t = inr (λ s. s.1, refl)
  try_each-cases (m ∷ ms) n t =
      let u = (try_mount steady m n t).1 in
      elim (try_mount-cases m n t) [
        | inl (f, e) ↦ elim (try_each-cases ms (try_mount steady m n t).0 u) [
          | inl (s, lt) ↦ inl ((m, inl refl, f), omega arith)
          | inr (sound, q) ↦ inl ((m, inl refl, f), omega arith)
        ]
        | inr (ok, e) ↦ elim (try_each-cases ms (try_mount steady m n t).0 u) [
          | inl ((x, i, f), lt) ↦ inl ((x, inr i, f), omega arith)
          | inr (sound, q) ↦ inr (
            λ s. elim s.1 [ inl p ↦ ok (subst Fails p s.2) | inr i ↦ sound (s.0, i, s.2) ],
            q ∙ e,
          )
        ]
      ]

  -- Where the kernel answers a call the same whatever was called before: mount_initial_filesystems
  -- returns -1 exactly if for one of the early mounts the mount point is not there and cannot be
  -- made, or mount fails with another error than EBUSY; and 0 otherwise.
  pub mount_initial_filesystems_iff :
      (t : List MountCall)
      → (SomeFails early_mounts × ((mount_initial_filesystems steady t).0 ≡ neg 1))
        ⊎ ((¬ SomeFails early_mounts) × ((mount_initial_filesystems steady t).0 ≡ pos 0))
  unfolding mount_initial_filesystems
  mount_initial_filesystems_iff t = elim (try_each-cases early_mounts 0 t) [
    | inl (s, lt) ↦ inl (s, ground arith)
    | inr (sound, e) ↦ inr (sound, ground arith)
  ]
