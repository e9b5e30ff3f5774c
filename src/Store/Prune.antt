-- ===== src/Store/Prune.antt =====
-- The bound on the identifiers that are kept, and which ones are dropped.
use tera_agent.Base.{
  ℕ, zero, suc, ◌+◌, ◌-◌, ◌≤◌, ◌<◌, ◌≡◌, ◌≢◌, ◌⊎◌, ap, sym, ◌∙◌, Bool, true, false, ◌&&◌, not,
  Bool-cases, inl, inr, none, some, List, [], ◌∷◌, String, str_eq, eq_iff, leb, length, take, All,
  length-take, arith,
}
use mathlib.Core.Bool.{false≢true}
use tera_agent.Base.Int.{ℤ, ◌≤ℤ◌}
use tera_agent.Maps.{
  Map, get, has, put, remove, IsMap, has-put, has-remove, get-put, put-IsMap, remove-IsMap,
  length-remove,
}
use tera_agent.Store.Keeps.{persist-done}
use tera_agent.Store.{Store, Disk, max_done, seen, remove_each, prune, mark_done}

-- Oldest first.
abbrev pub IsAged : List (String × ℤ) → Type 0
IsAged [] = Unit
IsAged ((k, t) ∷ items) = All (λ e. t ≤ℤ e.1) items × IsAged items

-- The items are the map's entries, each once, oldest first.
pub record IsByAge (m : Map ℤ) (items : List (String × ℤ)) : Type 0 where
  pub same : (k : String) → get k items ≡ get k m
  pub distinct : IsMap items
  pub sized : length items ≡ length m
  pub aged : IsAged items

has-get : (k : String) (m : Map ℤ) (t : ℤ) → get k m ≡ some t → has k m ≡ true
unfolding has get
has-get k [] t h = absurd (none-some h)
  where
    none-some : {t : ℤ} → none ≡ some t → ⊥
    none-some e = cc
has-get k ((j, v) ∷ m) t h = ground (arith, has-get k m t)

get-has : (k : String) (m : Map ℤ) → has k m ≡ true → (t : ℤ) × (get k m ≡ some t)
unfolding has get
get-has k [] h = absurd (cc)
get-has k ((j, v) ∷ m) h = elim (Bool-cases (str_eq j k)) [
  | inl e ↦ (v, rw e)
  | inr e ↦ rw e (get-has k m (rw e at h))
]

has-remove_each :
    (k : String) (items : List (String × ℤ)) (m : Map ℤ)
    → has k (remove_each items m) ≡ (has k m && not (has k items))
unfolding remove_each has
has-remove_each k [] m = ground arith
has-remove_each k ((j, t) ∷ items) m =
    ground (arith, has-remove_each k items (remove j m), has-remove j k m)

remove_each-IsMap : (items : List (String × ℤ)) (m : Map ℤ) → IsMap m → IsMap (remove_each items m)
unfolding remove_each
remove_each-IsMap [] m h = h
remove_each-IsMap ((j, t) ∷ items) m h = remove_each-IsMap items (remove j m) (remove-IsMap j m h)

-- Every key of the items is in the map.
abbrev Within : List (String × ℤ) → Map ℤ → Type 0
Within items m = (k : String) → has k items ≡ true → has k m ≡ true

length-remove_each :
    (items : List (String × ℤ)) (m : Map ℤ)
    → IsMap m
    → IsMap items
    → Within items m
    → length (remove_each items m) + length items ≡ length m
unfolding remove_each has
length-remove_each [] m h d w = omega arith
length-remove_each ((j, t) ∷ items) m h (fresh, d) w =
    let rest =
      length-remove_each items (remove j m) (remove-IsMap j m h) d
        (λ k hk. ground (arith, has-remove j k m, eq_iff j k, w k, hk, fresh)) in
    omega (arith, rest, length-remove j m h (w j (ground (arith, eq_iff j j))))

prefix-Within : (d : ℕ) (items : List (String × ℤ)) → Within (take d items) items
unfolding has
prefix-Within zero items k h = absurd (cc)
prefix-Within (suc d) [] k h = absurd (cc)
prefix-Within (suc d) ((j, t) ∷ items) k h = ground (arith, prefix-Within d items k, h)

prefix_fresh :
    (d : ℕ) (items : List (String × ℤ)) (k : String)
    → has k items ≡ false
    → has k (take d items) ≡ false
unfolding has
prefix_fresh d items k h = elim (Bool-cases (has k (take d items))) [
  | inr e ↦ e
  | inl e ↦ cc (prefix-Within d items k e)
]

prefix-IsMap : (d : ℕ) (items : List (String × ℤ)) → IsMap items → IsMap (take d items)
prefix-IsMap zero items h = tt
prefix-IsMap (suc d) [] h = tt
prefix-IsMap (suc d) ((j, t) ∷ items) (fresh, h) =
    (prefix_fresh d items j fresh, prefix-IsMap d items h)

All-get :
    (v : ℤ) (items : List (String × ℤ)) (k : String) (t : ℤ)
    → All (λ e. v ≤ℤ e.1) items
    → get k items ≡ some t
    → v ≤ℤ t
unfolding get
All-get v [] k t h e = absurd (cc)
All-get v ((j, u) ∷ items) k t (h, hs) e = ground (arith, All-get v items k t hs)

-- An item of the front is no younger than one behind it.
older :
    (d : ℕ) (items : List (String × ℤ)) (k j : String) (t u : ℤ)
    → IsAged items
    → has k (take d items) ≡ true
    → has j (take d items) ≡ false
    → get k items ≡ some t
    → get j items ≡ some u
    → t ≤ℤ u
unfolding has get
older zero items k j t u aged hk hj ek ej = absurd (cc)
older (suc d) [] k j t u aged hk hj ek ej = absurd (cc)
older (suc d) ((i, v) ∷ items) k j t u (youngest, aged) hk hj ek ej =
    ground (arith, older d items k j t u aged, All-get v items j u youngest)

module _ {m : Map ℤ} {items : List (String × ℤ)} (sorted : IsByAge m items) where
  items-Within : Within items m
  items-Within k h = let (t, e) = get-has k items h in has-get k m t (sym (sorted.same k) ∙ e)

  Within-items : (k : String) → has k m ≡ true → has k items ≡ true
  Within-items k h = let (t, e) = get-has k m h in has-get k items t (sorted.same k ∙ e)

first_key : (m : Map ℤ) → 0 < length m → (k : String) × (has k m ≡ true)
unfolding has
first_key [] h = absurd (omega arith)
first_key ((k, t) ∷ m) h = (k, ground (arith, eq_iff k k))

module _ (by_age : Map ℤ → List (String × ℤ)) (m : Map ℤ) (h : IsMap m)
    (sorted : IsByAge m (by_age m)) where
  prune-IsMap : IsMap (prune by_age m)
  unfolding prune
  prune-IsMap = elim (Bool-cases (leb (length m) max_done)) [
    | inl e ↦ rw e h
    | inr e ↦ rw e (remove_each-IsMap (take (length m - max_done) (by_age m)) m h)
  ]

  prune_full : leb (length m) max_done ≡ false → length (prune by_age m) ≡ max_done
  unfolding prune
  prune_full e = rw e (
      ground (
        arith,
        length-remove_each (take (length m - max_done) (by_age m)) m h
            (prefix-IsMap (length m - max_done) (by_age m) sorted.distinct)
            (λ k hk. items-Within sorted k (prefix-Within (length m - max_done) (by_age m) k hk)),
        length-take (length m - max_done) (by_age m),
        sorted.sized,
      ))

  prune_bounded : length (prune by_age m) ≤ max_done
  prune_bounded = elim (Bool-cases (leb (length m) max_done)) [
    | inl e ↦ unfold prune in rw e (ground arith)
    | inr e ↦ omega (arith, prune_full e)
  ]

  -- A key that is dropped is no younger than one that is kept.
  prune_oldest :
      (k j : String) (t u : ℤ)
      → get k m ≡ some t
      → get j m ≡ some u
      → has k (prune by_age m) ≡ false
      → has j (prune by_age m) ≡ true
      → t ≤ℤ u
  unfolding prune
  prune_oldest k j t u ek ej gone kept = elim (Bool-cases (leb (length m) max_done)) [
    | inl e ↦ absurd (ground (arith, e, has-get k m t ek, gone))
    | inr e ↦
        let front = take (length m - max_done) (by_age m) in
        older (length m - max_done) (by_age m) k j t u sorted.aged
          (ground (arith, e, gone, has-get k m t ek, has-remove_each k front m))
          (ground (arith, e, kept, has-remove_each j front m)) (sorted.same k ∙ ek)
          (sorted.same j ∙ ej)
  ]

  -- Pruning removes keys and adds none.
  prune_keeps : (k : String) → has k (prune by_age m) ≡ true → has k m ≡ true
  unfolding prune
  prune_keeps k h = elim (Bool-cases (leb (length m) max_done)) [
    | inl e ↦ rw e at h
    | inr e ↦ ground (arith, h, has-remove_each k (take (length m - max_done) (by_age m)) m)
  ]

  -- A key that is younger than all others is kept.
  prune_newest :
      (k : String) (t : ℤ)
      → get k m ≡ some t
      → ((j : String) (u : ℤ) → k ≢ j → get j m ≡ some u → ¬ (t ≤ℤ u))
      → has k (prune by_age m) ≡ true
  prune_newest k t ek newest = elim (Bool-cases (has k (prune by_age m))) [
    | inl kept ↦ kept
    | inr gone ↦ elim (Bool-cases (leb (length m) max_done)) [
      | inl few ↦ absurd (false≢true (sym gone ∙ unfold prune in rw few (has-get k m t ek)))
      | inr many ↦
          let (j, hj) = first_key (prune by_age m) (omega (arith, prune_full many)) in
          let (u, ej) = get-has j m (prune_keeps j hj) in
          absurd (
            newest j u (λ same. cc (ap (λ i. has i (prune by_age m)) same)) ej
              (prune_oldest k j t u ek ej gone hj))
    ]
  ]

module _ (disk : Disk) (by_age : Map ℤ → List (String × ℤ)) (now : ℤ) (saves : Bool) (s : Store)
    (id : String) (one_each : IsMap s.done)
    (sorted : IsByAge (put id now s.done) (by_age (put id now s.done))) where
  -- After `MarkDone` the store still has one entry for each identifier, at most 2000 of them. It has
  -- seen no identifier but the marked one that it had not seen before, and an identifier that it
  -- dropped was marked no later than any that it kept.
  pub mark_done_lem :
      let s' = mark_done disk by_age now saves s id in
      IsMap s'.done
      × (length s'.done ≤ max_done)
      × ((k : String) → seen s' k ≡ true → (k ≡ id) ⊎ (seen s k ≡ true))
      × ((k j : String) (t u : ℤ)
          → get k (put id now s.done) ≡ some t
          → get j (put id now s.done) ≡ some u
          → seen s' k ≡ false
          → seen s' j ≡ true
          → t ≤ℤ u)
  unfolding mark_done seen
  mark_done_lem =
      let m = put id now s.done in
      let one = put-IsMap id now s.done one_each in
      rw persist-done (
        prune-IsMap by_age m one sorted,
        prune_bounded by_age m one sorted,
        (λ k h.
            ground
              (arith, prune_keeps by_age m one sorted k h, has-put id k now s.done, eq_iff id k)),
        prune_oldest by_age m one sorted,
      )

  -- A job that is marked later than every other job in the store is seen from then on.
  pub seen-mark_done :
      ((j : String) (u : ℤ) → id ≢ j → get j s.done ≡ some u → ¬ (now ≤ℤ u))
      → seen (mark_done disk by_age now saves s id) id ≡ true
  unfolding mark_done seen
  seen-mark_done newest =
      let m = put id now s.done in
      rw persist-done (
        prune_newest by_age m (put-IsMap id now s.done one_each) sorted id now
          (ground (arith, get-put id id now s.done, eq_iff id id))
          (λ j u differs e.
            newest j u differs (ground (arith, get-put id j now s.done, eq_iff id j, e))))
