-- ===== src/Android/Properties/Map.antt =====
-- The table of properties as a finite map.
use lumi_os.Base.{
  take_all, suc, ◌+◌, ◌≤◌, ◌<◌, ◌≡◌, refl, ap, ◌∙◌, subst, ltb→lt, lt→ltb, inl, inr, ◌⊎◌, true,
  Option, none, some, [], List, ◌∷◌, ◌++◌, ℤ, pos, neg, Text, text_eq, text_eq_iff, if◌then◌else◌,
  ltb, length, length-append, length-take, take, Bool-cases, Option-cases, arith,
}
use lumi_os.Android.Properties.{
  Property, Table, max_props, max_key, max_val, update_existing, add_new, props_set, props_get,
  set_each,
}

-- `other` reads the value that `key` was given, or what it was.
abbrev assigned : Text → Text → Text → Option Text → Option Text
assigned key value other before = if text_eq key other then some (take max_val value) else before

text_eq_refl : (s : Text) → text_eq s s ≡ true
text_eq_refl s = (text_eq_iff s s).1 refl

update_existing-none :
    (key value : Text) (ps : Table) → update_existing key value ps ≡ none → props_get key ps ≡ none
unfolding update_existing props_get
update_existing-none key value [] h = refl
update_existing-none key value (p ∷ ps) h = ground (arith, update_existing-none key value ps)

update_existing-get :
    (key value other : Text) (ps ps' : Table)
    → update_existing key value ps ≡ some ps'
    → props_get other ps' ≡ assigned key value other (props_get other ps)
unfolding update_existing props_get
update_existing-get key value other [] ps' h = ground arith
update_existing-get key value other (p ∷ ps) ps' h = elim (Bool-cases (text_eq p.key key)) [
  | inl e ↦ ground (arith, (text_eq_iff p.key key).0 e)
  | inr e ↦ elim (Option-cases (update_existing key value ps)) [
    | inl n ↦ ground arith
    | inr (rest, s) ↦ ground (
      arith,
      update_existing-get key value other ps rest s,
      text_eq_iff p.key key,
      text_eq_iff key other,
      text_eq_iff p.key other,
    )
  ]
]

-- The entry that is added behind all others is read where no other has its key.
get-append :
    (k v key other : Text) (ps : Table)
    → k ≡ key
    → props_get key ps ≡ none
    → props_get other (ps ++ (record { key = k; value = v } ∷ []))
      ≡ (if text_eq key other then some v else props_get other ps)
unfolding props_get
get-append k v key other [] e h = ground (arith, e)
get-append k v key other (p ∷ ps) e h = ground (
  arith,
  get-append k v key other ps e,
  text_eq_iff p.key key,
  text_eq_iff key other,
  text_eq_iff p.key other,
)

-- props_set with a key of less than 128 bytes returns 0, and then props_get gives the first 255
-- bytes of the value for this key and what it gave before for every other; or it returns -1 and
-- changes nothing, where the key is not in the table and the table holds 256 properties.
pub props_set-refines :
    (key value : Text) (ps : Table)
    → length key < 128
    → (((props_set key value ps).0 ≡ pos 0)
        × ((other : Text)
            → props_get other (props_set key value ps).1
              ≡ (if text_eq key other then some (take 255 value) else props_get other ps)))
      ⊎ ((props_set key value ps ≡ (neg 1, ps)) × (props_get key ps ≡ none) × (256 ≤ length ps))
unfolding props_set add_new
props_set-refines key value ps h = elim (Option-cases (update_existing key value ps)) [
  | inr (ps', e) ↦
      rw (e, props_set) (inl (refl, λ (other : Text). update_existing-get key value other ps ps' e))
  | inl e ↦ elim (Bool-cases (ltb (length ps) max_props)) [
    | inl lt ↦
        rw (e, props_set, lt, add_new)
          (inl (
            refl,
            λ (other : Text).
                get-append (take max_key key) (take max_val value) key other ps
                  (take_all max_key key (omega arith)) (update_existing-none key value ps e),
          ))
    | inr ge ↦
        rw (e, props_set, ge, add_new)
          (inr (refl, update_existing-none key value ps e, ground arith))
  ]
]

-- What every entry of the table has room for.
abbrev pub Fits : Table → Type 0
Fits [] = Unit
Fits (p ∷ ps) = (length p.key ≤ 127) × (length p.value ≤ 255) × Fits ps

Fits-get : (key : Text) (ps : Table) → Fits ps → 128 ≤ length key → props_get key ps ≡ none
unfolding props_get
Fits-get key [] f h = refl
Fits-get key (p ∷ ps) f h = elim (Bool-cases (text_eq p.key key)) [
  | inl e ↦ absurd (omega (arith, f.0, h, ap length ((text_eq_iff p.key key).0 e)))
  | inr e ↦ rw e (Fits-get key ps f.2 h)
]

update_existing_long :
    (key value : Text) (ps : Table)
    → Fits ps
    → 128 ≤ length key
    → update_existing key value ps ≡ none
unfolding update_existing
update_existing_long key value [] f h = refl
update_existing_long key value (p ∷ ps) f h = elim (Bool-cases (text_eq p.key key)) [
  | inl e ↦ absurd (omega (arith, f.0, h, ap length ((text_eq_iff p.key key).0 e)))
  | inr e ↦ rw (e, update_existing_long key value ps f.2 h) refl
]

Fits-append :
    (key value : Text) (ps : Table)
    → Fits ps
    → Fits (ps ++ (record { key = take max_key key; value = take max_val value } ∷ []))
Fits-append key value [] f =
    (omega (arith, length-take max_key key), omega (arith, length-take max_val value), tt)
Fits-append key value (p ∷ ps) f = (f.0, f.1, Fits-append key value ps f.2)

Fits-update :
    (key value : Text) (ps ps' : Table)
    → update_existing key value ps ≡ some ps'
    → Fits ps
    → Fits ps' × (length ps' ≡ length ps)
unfolding update_existing
Fits-update key value [] ps' h f = ground arith
Fits-update key value (p ∷ ps) ps' h f = elim (Bool-cases (text_eq p.key key)) [
  | inl e ↦
      let q : (record p { value = take max_val value } ∷ ps) ≡ ps' = ground arith in
      subst (λ (t : Table). Fits t × (length t ≡ suc (length ps))) q
        ((f.0, omega (arith, length-take max_val value), f.2), refl)
  | inr e ↦ elim (Option-cases (update_existing key value ps)) [
    | inl n ↦ absurd (ground arith)
    | inr (rest, s) ↦
        let q : (p ∷ rest) ≡ ps' = ground arith in
        let (fr, lr) = Fits-update key value ps rest s f.2 in
        subst (λ (t : Table). Fits t × (length t ≡ suc (length ps))) q ((f.0, f.1, fr), ap suc lr)
  ]
]

-- At most 256 properties, each within its arrays.
pub record IsTable (ps : Table) : Type 0 where
  pub count : length ps ≤ 256
  pub fits : Fits ps

pub props_set-IsTable :
    (key value : Text) (ps : Table) → IsTable ps → IsTable (props_set key value ps).1
unfolding props_set add_new
props_set-IsTable key value ps h = elim (Option-cases (update_existing key value ps)) [
  | inr (ps', e) ↦
      let (f, l) = Fits-update key value ps ps' e h.fits in
      rw (e, props_set) (record { count = omega (arith, l, h.count); fits = f })
  | inl e ↦ elim (Bool-cases (ltb (length ps) max_props)) [
    | inl lt ↦
        rw (e, props_set, lt, add_new)
          (record {
            count = omega (
              arith,
              ltb→lt _ _ lt,
              length-append {0} ps
                  (record { key = take max_key key; value = take max_val value } ∷ []),
            );
            fits = Fits-append key value ps h.fits;
          })
    | inr ge ↦ rw (e, props_set, ge, add_new) h
  ]
]

pub set_each-IsTable :
    (entries : List (Text × Text)) (ps : Table) → IsTable ps → IsTable (set_each entries ps)
unfolding set_each
set_each-IsTable [] ps h = h
set_each-IsTable ((key, value) ∷ rest) ps h =
    set_each-IsTable rest _ (props_set-IsTable key value ps h)

-- A key of 128 bytes or more is never read back from a table whose entries fit: as long as there
-- is room each props_set of it returns 0 and adds one entry more, and props_get still gives NULL.
props_set_long :
    (key value : Text) (ps : Table)
    → 128 ≤ length key
    → IsTable ps
    → length ps < 256
    → ((props_set key value ps).0 ≡ pos 0)
      × (length (props_set key value ps).1 ≡ length ps + 1)
      × (props_get key (props_set key value ps).1 ≡ none)
unfolding props_set add_new
props_set_long key value ps h t lt =
    let added : Property = record { key = take max_key key; value = take max_val value } in
    let e = update_existing_long key value ps t.fits h in
    let l = lt→ltb (length ps) max_props lt in
    let q : props_set key value ps ≡ (pos 0, ps ++ (added ∷ [])) =
      rw (e, props_set, l, add_new) refl in
    (
      ap (λ (r : ℤ × Table). r.0) q,
      ap (λ (r : ℤ × Table). length r.1) q ∙ length-append {0} ps (added ∷ []),
      Fits-get key (props_set key value ps).1 (props_set-IsTable key value ps t).fits h,
    )
