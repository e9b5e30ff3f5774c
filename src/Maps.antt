-- ===== src/Maps.antt =====
-- Go's `map[string]V`: an association list with one entry for each key. The order of the entries is
-- that of the first writes; what the source makes of the order of iteration is a parameter there.
use tera_agent.Base.{
  ◌+◌, ◌≡◌, refl, Bool, true, false, Option, none, some, List, [], ◌∷◌, String, str_eq, eq_iff,
  if◌then◌else◌, length, arith,
}

abbrev pub Map {ℓ} : Type ℓ → Type ℓ
Map V = List (String × V)

module _ {ℓ} {V : Type ℓ} where
  unfoldable pub get : String → Map V → Option V
  get k [] = none
  get k ((j, v) ∷ m) = if str_eq j k then some v else get k m

  unfoldable pub has : String → Map V → Bool
  has k [] = false
  has k ((j, v) ∷ m) = if str_eq j k then true else has k m

  unfoldable pub put : String → V → Map V → Map V
  put k v [] = (k, v) ∷ []
  put k v ((j, w) ∷ m) = if str_eq j k then (k, v) ∷ m else (j, w) ∷ put k v m

  unfoldable pub remove : String → Map V → Map V
  remove k [] = []
  remove k ((j, v) ∷ m) = let rest = remove k m in if str_eq j k then rest else (j, v) ∷ rest

  pub get-put :
      (k j : String) (v : V) (m : Map V)
      → get j (put k v m) ≡ (if str_eq k j then some v else get j m)
  unfolding get put
  get-put k j v [] = refl
  get-put k j v ((i, w) ∷ m) = ground (arith, eq_iff k j, eq_iff i k, eq_iff i j, get-put k j v m)

  pub has-put :
      (k j : String) (v : V) (m : Map V)
      → has j (put k v m) ≡ (if str_eq k j then true else has j m)
  unfolding has put
  has-put k j v [] = refl
  has-put k j v ((i, w) ∷ m) = ground (arith, eq_iff k j, eq_iff i k, eq_iff i j, has-put k j v m)

  pub has-remove :
      (k j : String) (m : Map V) → has j (remove k m) ≡ (if str_eq k j then false else has j m)
  unfolding has remove
  has-remove k j [] = ground arith
  has-remove k j ((i, w) ∷ m) = ground (arith, eq_iff k j, eq_iff i k, eq_iff i j, has-remove k j m)

  -- One entry for each key.
  abbrev pub IsMap : Map V → Type 0
  IsMap [] = Unit
  IsMap ((k, v) ∷ m) = (has k m ≡ false) × IsMap m

  pub put-IsMap : (k : String) (v : V) (m : Map V) → IsMap m → IsMap (put k v m)
  unfolding put has
  put-IsMap k v [] h = (refl, tt)
  put-IsMap k v ((j, w) ∷ m) (fresh, h) =
      ground (arith, eq_iff j k, eq_iff k j, has-put k j v m, put-IsMap k v m h)

  pub remove-IsMap : (k : String) (m : Map V) → IsMap m → IsMap (remove k m)
  unfolding remove
  remove-IsMap k [] h = tt
  remove-IsMap k ((j, w) ∷ m) (fresh, h) = ground (arith, has-remove k j m, remove-IsMap k m h)

  length-remove_absent : (k : String) (m : Map V) → has k m ≡ false → remove k m ≡ m
  unfolding has remove
  length-remove_absent k [] h = refl
  length-remove_absent k ((j, v) ∷ m) h = ground (arith, length-remove_absent k m)

  pub length-remove :
      (k : String) (m : Map V) → IsMap m → has k m ≡ true → length (remove k m) + 1 ≡ length m
  unfolding has remove
  length-remove k [] _ h = cc
  length-remove k ((j, v) ∷ m) (fresh, rest) h =
      ground (arith, eq_iff j k, length-remove_absent k m, length-remove k m rest)
