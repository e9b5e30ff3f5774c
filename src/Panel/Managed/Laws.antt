-- ===== src/Panel/Managed/Laws.antt =====
-- The managed printers as a map from names.
use tera_agent.Base.{
  Bool, true, false, Option, none, some, List, [], ◌∷◌, ◌++◌, String, str_eq, eq_iff, ◌≡◌, refl,
  Bool-cases, inl, inr, if◌then◌else◌, All, arith,
}
use tera_agent.Base.Int.{ℤ, pos, ◌≤ℤ◌}
use tera_agent.Config.{ManagedPrinter}
use tera_agent.Panel.Managed.{
  find_managed, replace_each, upsert_managed, remove_managed, clamp, max_page_margin_mm,
}

abbrev is_some : Option ManagedPrinter → Bool
is_some none = false
is_some (some p) = true

-- Whether an entry was replaced, and what is found then.
replaces :
    (ps : List ManagedPrinter) (mp : ManagedPrinter)
    → (replace_each ps mp).1 ≡ is_some (find_managed ps mp.name)
unfolding replace_each find_managed
replaces [] mp = refl
replaces (p ∷ ps) mp = ground (arith, replaces ps mp)

find-replace_each :
    (ps : List ManagedPrinter) (mp : ManagedPrinter) (name : String)
    → find_managed (replace_each ps mp).0 name ≡ (
        if str_eq mp.name name
        then (if (replace_each ps mp).1 then some mp else none)
        else find_managed ps name)
unfolding replace_each find_managed
find-replace_each [] mp name = ground arith
find-replace_each (p ∷ ps) mp name = ground (
  arith,
  find-replace_each ps mp name,
  eq_iff p.name mp.name,
  eq_iff mp.name name,
  eq_iff p.name name,
  replaces ps mp,
)

find-append :
    (ps : List ManagedPrinter) (mp : ManagedPrinter) (name : String)
    → find_managed (ps ++ mp ∷ []) name ≡ (
        if is_some (find_managed ps name)
        then find_managed ps name
        else find_managed (mp ∷ []) name)
unfolding find_managed
find-append [] mp name = refl
find-append (p ∷ ps) mp name = ground (arith, find-append ps mp name)

find-upsert_managed :
    (ps : List ManagedPrinter) (mp : ManagedPrinter) (name : String)
    → find_managed (upsert_managed ps mp) name
      ≡ (if str_eq mp.name name then some mp else find_managed ps name)
unfolding upsert_managed
find-upsert_managed ps mp name = elim (Bool-cases (replace_each ps mp).1) [
  | inl e ↦ ground (arith, e, find-replace_each ps mp name)
  | inr e ↦
      unfold find_managed in
      ground (arith, e, find-replace_each ps mp name, find-append (replace_each ps mp).0 mp name)
]

find-remove_managed :
    (ps : List ManagedPrinter) (removed name : String)
    → find_managed (remove_managed ps removed) name
      ≡ (if str_eq removed name then none else find_managed ps name)
unfolding remove_managed find_managed
find-remove_managed [] removed name = ground arith
find-remove_managed (p ∷ ps) removed name = ground (
  arith,
  find-remove_managed ps removed name,
  eq_iff p.name removed,
  eq_iff removed name,
  eq_iff p.name name,
)

-- The managed printers are a map from names: an entry that is put is found under its name, one that is
-- removed is not, and no other is touched.
pub find_managed_lem :
    (ps : List ManagedPrinter) (mp : ManagedPrinter) (name : String)
    → (find_managed (upsert_managed ps mp) name
        ≡ (if str_eq mp.name name then some mp else find_managed ps name))
      × (find_managed (remove_managed ps mp.name) name
          ≡ (if str_eq mp.name name then none else find_managed ps name))
find_managed_lem ps mp name = (find-upsert_managed ps mp name, find-remove_managed ps mp.name name)

-- No name stands twice.
abbrev pub IsDistinct : List ManagedPrinter → Type 0
IsDistinct [] = Unit
IsDistinct (p ∷ ps) = (find_managed ps p.name ≡ none) × IsDistinct ps

replace_each-IsDistinct :
    (ps : List ManagedPrinter) (mp : ManagedPrinter)
    → IsDistinct ps
    → IsDistinct (replace_each ps mp).0
unfolding replace_each
replace_each-IsDistinct [] mp h = tt
replace_each-IsDistinct (p ∷ ps) mp (fresh, h) = ground (
  arith,
  replace_each-IsDistinct ps mp h,
  find-replace_each ps mp p.name,
  replaces ps mp,
  eq_iff p.name mp.name,
  eq_iff mp.name p.name,
)

append-IsDistinct :
    (ps : List ManagedPrinter) (mp : ManagedPrinter)
    → IsDistinct ps
    → find_managed ps mp.name ≡ none
    → IsDistinct (ps ++ mp ∷ [])
unfolding find_managed
append-IsDistinct [] mp h fresh = (refl, tt)
append-IsDistinct (p ∷ ps) mp (own, h) fresh = ground (
  arith,
  append-IsDistinct ps mp h,
  find-append ps mp p.name,
  eq_iff p.name mp.name,
  eq_iff mp.name p.name,
)

pub upsert_managed-IsDistinct :
    (ps : List ManagedPrinter) (mp : ManagedPrinter)
    → IsDistinct ps
    → IsDistinct (upsert_managed ps mp)
unfolding upsert_managed
upsert_managed-IsDistinct ps mp h = elim (Bool-cases (replace_each ps mp).1) [
  | inl e ↦ rw e (replace_each-IsDistinct ps mp h)
  | inr e ↦ rw e (
      append-IsDistinct (replace_each ps mp).0 mp (replace_each-IsDistinct ps mp h)
        (ground (arith, e, find-replace_each ps mp mp.name, eq_iff mp.name mp.name)))
]

pub remove_managed-IsDistinct :
    (ps : List ManagedPrinter) (name : String) → IsDistinct ps → IsDistinct (remove_managed ps name)
unfolding remove_managed
remove_managed-IsDistinct [] name h = tt
remove_managed-IsDistinct (p ∷ ps) name (fresh, h) =
    ground (arith, remove_managed-IsDistinct ps name h, find-remove_managed ps name p.name)

module _ (P : ManagedPrinter → Type 0) where
  replace_each-All :
      (ps : List ManagedPrinter) (mp : ManagedPrinter)
      → P mp
      → All P ps
      → All P (replace_each ps mp).0
  unfolding replace_each
  replace_each-All [] mp new h = tt
  replace_each-All (p ∷ ps) mp new (own, h) = elim (Bool-cases (str_eq p.name mp.name)) [
    | inl e ↦ rw e (new, replace_each-All ps mp new h)
    | inr e ↦ rw e (own, replace_each-All ps mp new h)
  ]

  append-All :
      (ps : List ManagedPrinter) (mp : ManagedPrinter) → P mp → All P ps → All P (ps ++ mp ∷ [])
  append-All [] mp new h = (new, tt)
  append-All (p ∷ ps) mp new (own, h) = (own, append-All ps mp new h)

  pub upsert_managed-All :
      (ps : List ManagedPrinter) (mp : ManagedPrinter)
      → P mp
      → All P ps
      → All P (upsert_managed ps mp)
  unfolding upsert_managed
  upsert_managed-All ps mp new h = elim (Bool-cases (replace_each ps mp).1) [
    | inl e ↦ rw e (replace_each-All ps mp new h)
    | inr e ↦ rw e (append-All (replace_each ps mp).0 mp new (replace_each-All ps mp new h))
  ]

  pub remove_managed-All :
      (ps : List ManagedPrinter) (name : String) → All P ps → All P (remove_managed ps name)
  unfolding remove_managed
  remove_managed-All [] name h = tt
  remove_managed-All (p ∷ ps) name (own, h) = elim (Bool-cases (str_eq p.name name)) [
    | inl e ↦ rw e (remove_managed-All ps name h)
    | inr e ↦ rw e (own, remove_managed-All ps name h)
  ]

pub clamp_bounds : (v lo hi : ℤ) → lo ≤ℤ hi → (lo ≤ℤ clamp v lo hi) × (clamp v lo hi ≤ℤ hi)
unfolding clamp
clamp_bounds v lo hi h = ground arith

pub margin_room : pos 0 ≤ℤ max_page_margin_mm
unfolding max_page_margin_mm
margin_room = omega arith
