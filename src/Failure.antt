-- ===== src/Failure.antt =====
-- The errors that the modelled functions return, and Go's `(value, error)` pair. An error that code
-- outside this repository returns is `external` with its text. `panicked` is Go's panic on a slice out
-- of range, and `out_of_memory` the end of a program that asks for more than there is: no function
-- handles them, so they end a call as an error does.
use tera_agent.Base.{
  ℕ, zero, suc, [], ◌∷◌, ◌-◌, ◌≤◌, String, List, ◌≡◌, refl, ◌⊎◌, inl, inr, ◌&&◌, leb, if◌then◌else◌,
  length, take, drop, arith,
}

pub data Reason : Type 0 where
  no_driver : String → Reason
  no_encoder : String → Reason
  no_renderer : String → String → Reason

pub data Error : Type 0 where
  external : String → Error
  no_native_formats : String → Error
  no_pipeline : String → String → List Reason → Error
  unknown_printer : String → Error
  wrong_artifact : String → Error
  empty_artifact : Error
  bad_payload : Error
  no_role_resolver : Error
  unresolved_role : String → Error
  no_handler : String → String → Error
  short_header : Error
  bad_magic : Error
  unsupported_version : ℕ → Error
  truncated_header : ℕ → Error
  truncated_body : ℕ → Error
  up_to_date : Error
  unverifiable : Error
  unsupported_content_type : Error
  bad_url : String → Error
  bad_scheme : String → Error
  no_host : Error
  unencrypted : Error
  log_not_absolute : String → Error
  log_outside : String → String → Error
  not_found : String → Error
  not_yaml : Error
  unknown_scope : String → Error
  unsafe_folder : String → Error → Error
  null_dacl : String → Error
  untrusted_write : String → String → Error
  printer_required : Error
  no_text : Error
  empty_token : Error
  no_url : Error
  panicked : Error
  out_of_memory : Error

pub data Result {ℓ} (A : Type ℓ) : Type ℓ where
  ok : A → Result A
  err : Error → Result A

infixl 5 ◌>>=◌
abbrev pub ◌>>=◌ {ℓ κ} : {A : Type ℓ} {B : Type κ} → Result A → (A → Result B) → Result B
ok a >>= f = f a
err e >>= f = err e

pub Result-cases {ℓ} :
    {A : Type ℓ} (r : Result A) → ((a : A) × (r ≡ ok a)) ⊎ ((e : Error) × (r ≡ err e))
Result-cases (ok a) = inl (a, refl)
Result-cases (err e) = inr (e, refl)

-- `xs[a:b]`. Go allows `b` up to the slice's capacity; here it is the length, as in the source's
-- slices that are used whole.
unfoldable pub slice : {A : Type 0} → List A → ℕ → ℕ → Result (List A)
slice xs a b = if leb a b && leb b (length xs) then ok (take (b - a) (drop a xs)) else err panicked

-- `xs[i]`, of bytes.
abbrev pub byte_at : List ℕ → ℕ → Result ℕ
byte_at [] i = err panicked
byte_at (b ∷ bytes) zero = ok b
byte_at (b ∷ bytes) (suc i) = byte_at bytes i

pub slice_ok :
    {A : Type 0} (xs : List A) (a b : ℕ)
    → a ≤ b
    → b ≤ length xs
    → slice xs a b ≡ ok (take (b - a) (drop a xs))
unfolding slice
slice_ok xs a b h k = ground arith
