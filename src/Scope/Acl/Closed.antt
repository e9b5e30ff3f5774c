-- ===== src/Scope/Acl/Closed.antt =====
-- What the check of a folder finds, and that the folders that the setup makes pass it.
use tera_agent.Base.{
  ℕ, ◌/◌, ◌%◌, ◌^◌, Bool, true, false, not, Option, none, some, List, [], ◌∷◌, map, String, eq_iff,
  ◌==◌, if◌then◌else◌, ◌≡◌, ◌≢◌, refl, ap, ◌⊎◌, inl, inr, Bool-cases, All, arith,
}
use tera_agent.Failure.{Error, Result, ok, err, untrusted_write}
use tera_agent.Scope.Acl.{
  Sids, Ace, Grant, Acls, access_allowed, generic_read_execute, can_write, any_bit, write_bits,
  trusted, verify_loop, verify_as, verify_found, windows, secure_as, grant_as, full_access,
  IsSealing,
}

-- An entry gives no right to write to any but the trusted.
abbrev pub IsClosed : Sids → Result Ace → Type 0
IsClosed sids (err e) = ⊥
IsClosed sids (ok ace) =
    (ace.ace_type == access_allowed) ≡ true
    → can_write ace.mask ≡ true
    → trusted sids ace.sid ≡ true

abbrev Step : Bool → Bool → Bool → Result (Unit {0}) → Error → Result (Unit {0})
Step a b c rest e = if not a then rest else if not b then rest else if c then rest else err e

Step_ok :
    (a b c : Bool) (rest : Result (Unit {0})) (x : Error)
    → Step a b c rest x ≡ ok tt
    → (a ≡ true → b ≡ true → c ≡ true) × (rest ≡ ok tt)
Step_ok true true true rest x e = ground arith
Step_ok true true false rest x e = ground arith
Step_ok true false c rest x e = ground arith
Step_ok false b c rest x e = ground arith

ok_Step :
    (a b c : Bool) (rest : Result (Unit {0})) (x : Error)
    → (a ≡ true → b ≡ true → c ≡ true)
    → rest ≡ ok tt
    → Step a b c rest x ≡ ok tt
ok_Step true true true rest x h e = e
ok_Step true true false rest x h e = ground (arith, h refl refl)
ok_Step true false c rest x h e = e
ok_Step false b c rest x h e = e

verify_loop-All :
    (sids : Sids) (dir : String) (aces : List (Result Ace))
    → verify_loop sids dir aces ≡ ok tt
    → All (IsClosed sids) aces
unfolding verify_loop
verify_loop-All sids dir [] e = tt
verify_loop-All sids dir (err x ∷ aces) e = ground arith
verify_loop-All sids dir (ok ace ∷ aces) e =
    let (own, rest) =
      Step_ok (ace.ace_type == access_allowed) (can_write ace.mask) (trusted sids ace.sid)
        (verify_loop sids dir aces) (untrusted_write dir ace.sid) e in
    (own, verify_loop-All sids dir aces rest)

All-verify_loop :
    (sids : Sids) (dir : String) (aces : List (Result Ace))
    → All (IsClosed sids) aces
    → verify_loop sids dir aces ≡ ok tt
unfolding verify_loop
All-verify_loop sids dir [] h = refl
All-verify_loop sids dir (err x ∷ aces) (h, _) = elim h [ ]
All-verify_loop sids dir (ok ace ∷ aces) (h, k) =
    ok_Step (ace.ace_type == access_allowed) (can_write ace.mask) (trusted sids ace.sid)
      (verify_loop sids dir aces) (untrusted_write dir ace.sid) h (All-verify_loop sids dir aces k)

-- The rights to change a folder, by the numbers of their bits: FILE_WRITE_DATA, FILE_APPEND_DATA,
-- FILE_WRITE_EA, FILE_WRITE_ATTRIBUTES, DELETE, WRITE_DAC, WRITE_OWNER, GENERIC_WRITE and GENERIC_ALL.
abbrev rights : List ℕ
rights = 2 ^ 1 ∷ 2 ^ 2 ∷ 2 ^ 4 ∷ 2 ^ 8 ∷ 2 ^ 16 ∷ 2 ^ 18 ∷ 2 ^ 19 ∷ 2 ^ 30 ∷ 2 ^ 28 ∷ []

-- The entry is of another type than ACCESS_ALLOWED, or has none of the rights, or is of the system, the
-- administrators or CREATOR OWNER.
abbrev pub Admits : Sids → Result Ace → Type 0
Admits sids (err e) = ⊥
Admits sids (ok ace) =
    (ace.ace_type ≢ 0)
    ⊎ All (λ right. ace.mask / right % 2 ≡ 0) rights
    ⊎ (ace.sid ≡ sids.system)
    ⊎ (ace.sid ≡ sids.admins)
    ⊎ (ace.sid ≡ sids.creator_owner)

any_bit-All :
    (bits : List ℕ) (mask : ℕ) → any_bit bits mask ≡ false → All (λ bit. mask / bit % 2 ≡ 0) bits
unfolding any_bit
any_bit-All [] mask h = tt
any_bit-All (bit ∷ bits) mask h = elim (Bool-cases (mask / bit % 2 == 1)) [
  | inl e ↦ absurd (ground (arith, e, h))
  | inr e ↦ (ground (arith, e), any_bit-All bits mask (ground (arith, e, h)))
]

can_write-All : (mask : ℕ) → can_write mask ≡ false → All (λ right. mask / right % 2 ≡ 0) rights
unfolding can_write
can_write-All mask h = any_bit-All write_bits mask h

trusted-cases :
    (sids : Sids) (sid : String)
    → trusted sids sid ≡ true
    → (sid ≡ sids.system) ⊎ (sid ≡ sids.admins) ⊎ (sid ≡ sids.creator_owner)
unfolding trusted
trusted-cases sids sid h =
    ground (arith, eq_iff sid sids.system, eq_iff sid sids.admins, eq_iff sid sids.creator_owner)

IsClosed-Admits : (sids : Sids) (ace : Result Ace) → IsClosed sids ace → Admits sids ace
IsClosed-Admits sids (err e) h = h
IsClosed-Admits sids (ok ace) h = elim (Bool-cases (ace.ace_type == access_allowed)) [
  | inr e ↦ inl (ground (arith, e))
  | inl e ↦ elim (Bool-cases (can_write ace.mask)) [
    | inr f ↦ inr (inl (can_write-All ace.mask f))
    | inl f ↦ inr (inr (trusted-cases sids ace.sid (h e f)))
  ]
]

All-Admits :
    (sids : Sids) (aces : List (Result Ace)) → All (IsClosed sids) aces → All (Admits sids) aces
All-Admits sids [] h = tt
All-Admits sids (ace ∷ aces) (h, k) = (IsClosed-Admits sids ace h, All-Admits sids aces k)

abbrev ace_of : (ℕ → ℕ) → Grant → Result Ace
ace_of file_mask g =
    ok (record { ace_type = access_allowed; mask = file_mask g.access; sid = g.trustee })

system_trusted : (sids : Sids) → trusted sids sids.system ≡ true
unfolding trusted
system_trusted sids = ground (arith, (eq_iff sids.system sids.system).1 refl)

admins_trusted : (sids : Sids) → trusted sids sids.admins ≡ true
unfolding trusted
admins_trusted sids = ground (arith, (eq_iff sids.admins sids.admins).1 refl)

-- What the setup relies on: once a folder is protected, its list has an entry for each grant, whose mask is that of
-- the grant as the files' own rights; to read and to execute is none of those to write.
-- The lists of other folders stay.
pub record IsAcls {W : Type 0} (acls : Acls W) : Type 0 where
  pub file_mask : ℕ → ℕ
  pub reads_only : can_write (file_mask generic_read_execute) ≡ false
  pub protected :
      (dir owner : String) (grants : List Grant) (w w' : W)
      → acls.protect dir grants owner w ≡ (ok tt, w')
      → acls.dacl dir w' ≡ ok (some (map (ace_of file_mask) grants))
  pub others :
      (dir other owner : String) (grants : List Grant) (w : W)
      → dir ≢ other
      → acls.dacl other (acls.protect dir grants owner w).1 ≡ acls.dacl other w

module _ {W : Type 0} (acls : Acls W) where
  -- A folder's list, whose entries let none but the trusted write.
  pub record IsProtected (dir : String) (w : W) : Type 0 where
    pub sids : Sids
    pub known : acls.well_known ≡ ok sids
    pub aces : List (Result Ace)
    pub listed : acls.dacl dir w ≡ ok (some aces)
    pub closed : All (Admits sids) aces

  pub verify-IsProtected :
      (dir : String) (w : W)
      → (windows acls).verify_no_untrusted_write dir w ≡ ok tt
      → IsProtected dir w
  unfolding windows verify_found verify_as
  verify-IsProtected dir w = by (acls.dacl dir w) acls.well_known refl refl
    where
      by :
          (l : Result (Option (List (Result Ace)))) (k : Result Sids)
          → acls.dacl dir w ≡ l
          → acls.well_known ≡ k
          → verify_found k dir l ≡ ok tt
          → IsProtected dir w
      by (err x) k e f g = ground arith
      by (ok none) k e f g = ground arith
      by (ok (some aces)) (err x) e f g = ground arith
      by (ok (some aces)) (ok sids) e f g = record {
        sids = sids;
        known = f;
        aces = aces;
        listed = e;
        closed = All-Admits sids aces (verify_loop-All sids dir aces g);
      }

  module _ (law : IsAcls acls) where
    secure-verified :
        (dir : String) (w w' : W)
        → (windows acls).secure_service_dir dir w ≡ (ok tt, w')
        → (windows acls).verify_no_untrusted_write dir w' ≡ ok tt
    unfolding windows verify_found verify_as secure_as
    secure-verified dir w w' = by acls.well_known
      where
        by :
            (k : Result Sids)
            → secure_as acls k dir w ≡ (ok tt, w')
            → verify_found k dir (acls.dacl dir w') ≡ ok tt
        by (err x) e = ground arith
        by (ok sids) e = rw (law.protected dir sids.admins _ w w' e) (
            All-verify_loop sids dir
              (map (ace_of law.file_mask) (full_access sids.system ∷ full_access sids.admins ∷ []))
              (λ _ _. system_trusted sids, (λ _ _. admins_trusted sids, tt)))

    grant-verified :
        (dir : String) (w w' : W)
        → (windows acls).grant_users_read dir w ≡ (ok tt, w')
        → (windows acls).verify_no_untrusted_write dir w' ≡ ok tt
    unfolding windows verify_found verify_as grant_as
    grant-verified dir w w' = by acls.well_known
      where
        by :
            (k : Result Sids)
            → grant_as acls k dir w ≡ (ok tt, w')
            → verify_found k dir (acls.dacl dir w') ≡ ok tt
        by (err x) e = ground arith
        by (ok sids) e = rw (law.protected dir sids.admins _ w w' e) (
            All-verify_loop sids dir
              (map (ace_of law.file_mask) (
                full_access sids.system
                ∷ full_access sids.admins
                ∷ record { access = generic_read_execute; trustee = sids.users }
                ∷ []))
              (
                λ _ _. system_trusted sids,
                (λ _ _. admins_trusted sids, (λ _ h. ground (arith, h, law.reads_only), tt)),
              ))

    grant-others :
        (dir other : String) (w : W)
        → dir ≢ other
        → (windows acls).verify_no_untrusted_write other ((windows acls).grant_users_read dir w).1
          ≡ (windows acls).verify_no_untrusted_write other w
    unfolding windows grant_as
    grant-others dir other w apart = by acls.well_known
      where
        by :
            (k : Result Sids)
            → verify_found acls.well_known other (acls.dacl other (grant_as acls k dir w).1)
              ≡ verify_found acls.well_known other (acls.dacl other w)
        by (err x) = refl
        by (ok sids) =
            ap (verify_found acls.well_known other) (law.others dir other sids.admins _ w apart)

    pub windows-IsSealing : IsSealing (windows acls)
    windows-IsSealing = record {
      secured = secure-verified;
      granted = grant-verified;
      others = grant-others;
    }
