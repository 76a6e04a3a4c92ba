-- ===== src/Errors.antt =====
-- The error messages of the stores, one constructor for each `format!`, and results that carry
-- them (`Result<T, String>`).
use linguaray.Base.{ℕ, ◌≡◌, refl, arith, Text, ◌⊎◌, inl, inr}

pub data Error : Type 0 where
  -- packages/runtime/rust/src/storage.rs
  create_failed stage_failed write_failed flush_failed commit_failed : Error
  -- `serde_json::to_string_pretty`, and reads of the directory
  encode_failed read_failed delete_failed : Error
  -- a file that is not the JSON of its type, or is of another version
  parse_failed : Error
  unsupported_version : ℕ → Error
  -- `{field} is required`, `history {field} must not be empty`
  required_field : Text → Error
  no_such_book : Text → Error
  term_exists : Text → Error
  book_id_required : Error
  invalid_book_id : Text → Error
  -- packages/runtime/rust/src/backup.rs
  open_failed archive_failed too_many_files size_overflow backup_too_large staging_failed : Error
  unsafe_path extract_failed manifest_missing manifest_invalid unsupported_backup : Error
  embedded_secrets settings_missing : Error
  not_regular archive_write_failed : Text → Error
  unsupported_entry duplicate_entry : Text → Error
  invalid_backup : Error → Error
  install_failed : Error
  -- packages/runtime/rust/src/domain/engine.rs
  proxy_failed : Error
  unknown_proxy_mode : Text → Error
  provider_id_required : Error
  -- crates/engine/src/common/transport.rs
  proxy_url_required invalid_proxy_url proxy_scheme proxy_host proxy_credentials : Error
  invalid_proxy client_failed : Error
  -- crates/engine/src/engine.rs
  unknown_provider rejected_provider : Text → Error
  -- packages/runtime/rust/src/domain/settings and runtime/settings_api.rs
  invalid_provider_type invalid_provider_config no_such_provider : Text → Error
  unsupported_service : Text → Error
  same_service_id clock_failed : Error
  -- packages/runtime/rust/src/domain/glossary_exchange.rs
  csv_failed tbx_failed : Error
  csv_needs : Text → Error
  -- No error of the source: the search for a free id has used up the fuel of the model.
  still_searching : Error

pub data Result {ℓ} (A : Type ℓ) : Type ℓ where
  ok : A → Result A
  err : Error → Result A

pub Result-cases {ℓ} :
    {A : Type ℓ} (r : Result A) → ((a : A) × (r ≡ ok a)) ⊎ ((e : Error) × (r ≡ err e))
Result-cases (ok a) = inl (a, refl)
Result-cases (err e) = inr (e, refl)

-- `call()?; Ok(value)` in a method of a store: an error returns at once, with the store as it is.
unfoldable pub and_return {ℓ} : {S : Type 0} {A : Type ℓ} → A → Result (Unit {0}) × S → Result A × S
and_return v (ok _, s) = (ok v, s)
and_return v (err e, s) = (err e, s)

-- The `?` operator in a method.
unfoldable pub or_return {ℓ κ} :
    {S : Type 0} {A : Type ℓ} {B : Type κ} → Result A → S → (A → Result B × S) → Result B × S
or_return (ok v) s k = k v
or_return (err e) s k = (err e, s)

pub and_return-1 {ℓ} :
    {S : Type 0} {A : Type ℓ} (v : A) (p : Result (Unit {0}) × S) → (and_return v p).1 ≡ p.1
unfolding and_return
and_return-1 v (ok _, s) = refl
and_return-1 v (err e, s) = refl

pub and_return-ok {ℓ} :
    {S : Type 0} {A : Type ℓ} (v w : A) (p : Result (Unit {0}) × S)
    → (and_return v p).0 ≡ ok w
    → v ≡ w
unfolding and_return
and_return-ok v w (ok _, s) h = ground arith
and_return-ok v w (err e, s) h = cc

-- A property of the store that holds before `?` and after what follows it.
pub or_return-Keeps {ℓ κ} :
    {S : Type 0} {A : Type ℓ} {B : Type κ} (P : S → Type 0) (r : Result A) (s : S)
    (k : A → Result B × S)
    → P s
    → ((v : A) → r ≡ ok v → P (k v).1)
    → P (or_return r s k).1
unfolding or_return
or_return-Keeps P (ok v) s k p h = h v refl
or_return-Keeps P (err e) s k p h = p
