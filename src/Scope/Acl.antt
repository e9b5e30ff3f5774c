-- ===== src/Scope/Acl.antt =====
-- internal/adapters/fsacl: who may write in the folder of the service. `Acls` is what the Windows part
-- calls: the well-known SIDs, the list of a folder, `none` for a missing one, an entry of which may fail
-- to be read, and its replacement with an owner. The texts that wrap an error are left out.
pub mod Closed
use tera_agent.Base.{
  ℕ, ◌/◌, ◌%◌, Bool, true, false, not, ◌||◌, ◌&&◌, Option, none, some, List, [], ◌∷◌, ◌++◌, String,
  str_eq, ◌==◌, ◌≡◌, ◌≢◌, if◌then◌else◌,
}
use tera_agent.Failure.{Error, Result, ok, err, null_dacl, untrusted_write}

-- The three operations of the package, of which every system has its own.
pub record Fsacl (W : Type 0) : Type 0 where
  pub secure_service_dir : String → W → Result (Unit {0}) × W
  pub grant_users_read : String → W → Result (Unit {0}) × W
  pub verify_no_untrusted_write : String → W → Result (Unit {0})

-- What is promised of them: a folder that was secured or granted passes the check, and to grant one leaves
-- the check of another.
pub record IsSealing {W : Type 0} (f : Fsacl W) : Type 0 where
  pub secured :
      (dir : String) (w w' : W)
      → f.secure_service_dir dir w ≡ (ok tt, w')
      → f.verify_no_untrusted_write dir w' ≡ ok tt
  pub granted :
      (dir : String) (w w' : W)
      → f.grant_users_read dir w ≡ (ok tt, w')
      → f.verify_no_untrusted_write dir w' ≡ ok tt
  pub others :
      (dir other : String) (w : W)
      → dir ≢ other
      → f.verify_no_untrusted_write other (f.grant_users_read dir w).1
        ≡ f.verify_no_untrusted_write other w

-- fsacl_other.go.
abbrev pub posix : {W : Type 0} → Fsacl W
posix = record {
  secure_service_dir = λ dir w. (ok tt, w);
  grant_users_read = λ dir w. (ok tt, w);
  verify_no_untrusted_write = λ dir w. ok tt;
}

pub record Sids : Type 0 where
  pub system : String
  pub admins : String
  pub users : String
  pub creator_owner : String

pub record Ace : Type 0 where
  pub ace_type : ℕ
  pub mask : ℕ
  pub sid : String

-- An `EXPLICIT_ACCESS` that grants.
pub record Grant : Type 0 where
  pub access : ℕ
  pub trustee : String

pub record Acls (W : Type 0) : Type 0 where
  pub well_known : Result Sids
  pub dacl : String → W → Result (Option (List (Result Ace)))
  pub protect : String → List Grant → String → W → Result (Unit {0}) × W

abbrev pub access_allowed : ℕ
access_allowed = 0

abbrev generic_all : ℕ
generic_all = 0x10000000

-- `GENERIC_READ|GENERIC_EXECUTE`.
abbrev pub generic_read_execute : ℕ
generic_read_execute = 0xA0000000

-- The bits of `untrustedWriteMask`.
abbrev write_bits : List ℕ
write_bits = 0x2 ∷ 0x4 ∷ 0x10 ∷ 0x100 ∷ 0x10000 ∷ 0x40000 ∷ 0x80000 ∷ 0x40000000 ∷ 0x10000000 ∷ []

any_bit : List ℕ → ℕ → Bool
any_bit [] mask = false
any_bit (bit ∷ bits) mask = mask / bit % 2 == 1 || any_bit bits mask

-- `mask & untrustedWriteMask != 0`.
unfoldable pub can_write : ℕ → Bool
unfolding any_bit
can_write mask = any_bit write_bits mask

unfoldable pub trusted : Sids → String → Bool
trusted sids sid = str_eq sid sids.system || str_eq sid sids.admins || str_eq sid sids.creator_owner

-- The loop of `VerifyNoUntrustedWrite`.
unfoldable pub verify_loop : Sids → String → List (Result Ace) → Result (Unit {0})
unfolding can_write trusted
verify_loop sids dir [] = ok tt
verify_loop sids dir (err e ∷ aces) = err e
verify_loop sids dir (ok ace ∷ aces) =
    let rest = verify_loop sids dir aces in
    if not (ace.ace_type == access_allowed)
    then rest
    else if not (can_write ace.mask)
    then rest
    else if trusted sids ace.sid
    then rest
    else err (untrusted_write dir ace.sid)

verify_as : Result Sids → String → List (Result Ace) → Result (Unit {0})
unfolding verify_loop
verify_as (err e) dir aces = err e
verify_as (ok sids) dir aces = verify_loop sids dir aces

verify_found : Result Sids → String → Result (Option (List (Result Ace))) → Result (Unit {0})
unfolding verify_as
verify_found sids dir (err e) = err e
verify_found sids dir (ok none) = err (null_dacl dir)
verify_found sids dir (ok (some aces)) = verify_as sids dir aces

-- `fullAccess`.
abbrev full_access : String → Grant
full_access sid = record { access = generic_all; trustee = sid }

module _ {W : Type 0} (acls : Acls W) where
  secure_as : Result Sids → String → W → Result (Unit {0}) × W
  secure_as (err e) dir w = (err e, w)
  secure_as (ok sids) dir w =
      acls.protect dir (full_access sids.system ∷ full_access sids.admins ∷ []) sids.admins w

  grant_as : Result Sids → String → W → Result (Unit {0}) × W
  grant_as (err e) dir w = (err e, w)
  grant_as (ok sids) dir w =
      acls.protect dir
        (full_access sids.system
          ∷ full_access sids.admins
          ∷ record { access = generic_read_execute; trustee = sids.users }
          ∷ [])
        sids.admins w

  -- fsacl_windows.go.
  unfoldable pub windows : Fsacl W
  unfolding secure_as grant_as verify_found
  windows = record {
    secure_service_dir = secure_as acls.well_known;
    grant_users_read = grant_as acls.well_known;
    verify_no_untrusted_write = λ dir w. verify_found acls.well_known dir (acls.dacl dir w);
  }
