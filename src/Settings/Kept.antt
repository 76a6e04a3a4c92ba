-- ===== src/Settings/Kept.antt =====
-- What the settings file keeps of a provider.
use mathlib.Core.List.{append-nil, append_assoc}
use linguaray.Base.{
  ◌≡◌, refl, sym, ap, ◌∙◌, true, false, not, Option, none, some, List, [], ◌∷◌, ◌++◌, map, arith,
  codes, all, Text, same, same_refl,
}
use linguaray.Base.Maps.{
  HashMap, KeysApart, get, remove, contains_key, insert_fresh, remove_fresh, remove-insert,
  KeysApart-middle, get-insert, get-none,
}
use linguaray.Errors.{ok}
use linguaray.Engine.{ProviderType, Value, string, as_str}
use linguaray.Engine.Names.{type_of-as_str}
use linguaray.Settings.{ProviderConfigEntry}
use linguaray.Settings.Mapping.{
  renamed_keys, rename_keys, insert_all, provider_config_json_value, provider_config_from_settings,
  field_values, provider_entry_from_config, config_of, provider_entry_from_value, provider_value,
  insert_preset, serialize_providers, deserialize_providers,
}

-- The keys that mean something else in the file.
pub record IsPlain (fields : HashMap Text) : Type 0 where
  pub apart : KeysApart fields
  pub no_type : contains_key (codes "type") fields ≡ false
  pub no_preset : contains_key (codes "presetId") fields ≡ false
  pub no_old_key : all (λ p. not (contains_key p.0 fields)) renamed_keys ≡ true

abbrev strings : HashMap Text → HashMap Value
strings fields = map (λ f. (f.0, string f.1)) fields

contains-strings :
    (k : Text) (fields : HashMap Text) → contains_key k (strings fields) ≡ contains_key k fields
contains-strings k [] = refl
contains-strings k ((j, v) ∷ fields) = ground (arith, contains-strings k fields)

strings-KeysApart : (fields : HashMap Text) → KeysApart fields → KeysApart (strings fields)
strings-KeysApart [] u = tt
strings-KeysApart ((k, v) ∷ fields) (fresh, u) =
    (contains-strings k fields ∙ fresh, strings-KeysApart fields u)

field_values-strings : (fields : HashMap Text) → field_values (strings fields) ≡ fields
unfolding field_values
field_values-strings [] = refl
field_values-strings ((k, v) ∷ fields) =
    ap (λ (r : HashMap Text). (k, v) ∷ r) (field_values-strings fields)

insert_all-append :
    (options object : HashMap Value)
    → KeysApart (object ++ options)
    → insert_all options object ≡ object ++ options
unfolding insert_all
insert_all-append [] object u = sym (append-nil object)
insert_all-append ((k, v) ∷ options) object u =
    rw (insert_fresh k v object (KeysApart-middle object k v options u)) (
      insert_all-append options (object ++ (k, v) ∷ [])
        (rw (append_assoc object ((k, v) ∷ []) options) u)
      ∙ append_assoc object ((k, v) ∷ []) options)

rename_keys_none :
    (pairs : List (Text × Text)) (object : HashMap Value)
    → all (λ p. not (contains_key p.0 object)) pairs ≡ true
    → rename_keys pairs object ≡ object
unfolding rename_keys
rename_keys_none [] object h = refl
rename_keys_none ((from, to) ∷ pairs) object h =
    let gone : get from object ≡ none = get-none from object (ground arith) in
    rw gone (rename_keys_none pairs object (ground arith))

no_old_key-strings :
    (pairs : List (Text × Text)) (fields : HashMap Text)
    → all (λ p. not (contains_key p.0 (strings fields))) pairs
      ≡ all (λ p. not (contains_key p.0 fields)) pairs
no_old_key-strings [] fields = refl
no_old_key-strings ((from, to) ∷ pairs) fields =
    ground (arith, contains-strings from fields, no_old_key-strings pairs fields)

module _ (t : ProviderType) (fields : HashMap Text) (plain : IsPlain fields) where
  abbrev typed : HashMap Value
  typed = (codes "type", string (as_str t)) ∷ strings fields

  typed-KeysApart : KeysApart typed
  typed-KeysApart =
      (contains-strings (codes "type") fields ∙ plain.no_type, strings-KeysApart fields plain.apart)

  no_old_key-typed : all (λ p. not (contains_key p.0 typed)) renamed_keys ≡ true
  unfolding same
  no_old_key-typed = no_old_key-strings renamed_keys fields ∙ plain.no_old_key

  json_value-typed :
      provider_config_json_value (record { provider_type = t; options = strings fields }) ≡ typed
  unfolding provider_config_json_value
  json_value-typed =
      rw
        (insert_all-append (strings fields) ((codes "type", string (as_str t)) ∷ [])
          typed-KeysApart)
        (rename_keys_none renamed_keys typed no_old_key-typed)

  remove_type-typed : remove (codes "type") typed ≡ strings fields
  unfolding same
  remove_type-typed =
      remove_fresh (codes "type") (strings fields)
        (contains-strings (codes "type") fields ∙ plain.no_type)

  get_type-typed : get (codes "type") typed ≡ some (string (as_str t))
  unfolding same
  get_type-typed = refl

  no_preset-typed : contains_key (codes "presetId") typed ≡ false
  unfolding same
  no_preset-typed = contains-strings (codes "presetId") fields ∙ plain.no_preset

  config_of-typed : config_of typed ≡ some (record { provider_type = t; options = strings fields })
  unfolding config_of
  config_of-typed = ground (arith, get_type-typed, type_of-as_str t, remove_type-typed)

  entry_of-typed :
      (id : Text)
      → provider_entry_from_config id (record { provider_type = t; options = strings fields })
        ≡ record { id = id; kind = t; fields = fields; created_at = none; preset_id = none }
  entry_of-typed id =
      unfold provider_entry_from_config in
      rw (json_value-typed, remove_type-typed, field_values-strings fields) refl

  -- The object of the file, by its preset, is read as the entry it was written for.
  read_typed :
      (id : Text) (preset : Option Text)
      → provider_entry_from_value id (insert_preset preset typed)
        ≡ ok (record { id = id; kind = t; fields = fields; created_at = none; preset_id = preset })
  unfolding provider_entry_from_value
  read_typed id none = ground (
    arith,
    remove_fresh (codes "presetId") typed no_preset-typed,
    config_of-typed,
    entry_of-typed id,
    get-none (codes "presetId") typed no_preset-typed,
  )
  read_typed id (some name) = ground (
    arith,
    remove-insert (codes "presetId") (string name) typed no_preset-typed,
    config_of-typed,
    entry_of-typed id,
    get-insert (codes "presetId") (codes "presetId") (string name) typed,
    same_refl (codes "presetId"),
  )

config_of_settings :
    (p : ProviderConfigEntry)
    → IsPlain p.fields
    → provider_config_from_settings p
      ≡ record { provider_type = p.kind; options = strings p.fields }
unfolding provider_config_from_settings
config_of_settings p plain = rw (remove_fresh (codes "presetId") p.fields plain.no_preset)

-- A provider whose fields have keys of their own, apart, is read back from the file as it was
-- written, under its key in the settings and without the time of its creation.
pub provider_entry_from_value-provider_value :
    (id : Text) (p : ProviderConfigEntry)
    → IsPlain p.fields
    → provider_entry_from_value id (provider_value p) ≡ ok (record p { id = id; created_at = none })
unfolding provider_value
provider_entry_from_value-provider_value id p plain =
    rw (config_of_settings p plain, json_value-typed p.kind p.fields plain)
      (read_typed p.kind p.fields plain id p.preset_id)

-- All providers have plain fields of their own.
abbrev pub AllPlain : HashMap ProviderConfigEntry → Type 0
AllPlain [] = Unit
AllPlain ((id, p) ∷ providers) = IsPlain p.fields × AllPlain providers

-- What is left of the providers after they have been written and read
abbrev pub reread : HashMap ProviderConfigEntry → HashMap ProviderConfigEntry
reread providers = map (λ p. (p.0, record p.1 { id = p.0; created_at = none })) providers

-- The providers of a settings file are read back in full, under their keys, but for the time of
-- their creation, which is lost.
pub deserialize-serialize :
    (providers : HashMap ProviderConfigEntry)
    → AllPlain providers
    → deserialize_providers (serialize_providers providers) ≡ reread providers
unfolding deserialize_providers serialize_providers
deserialize-serialize [] plain = refl
deserialize-serialize ((id, p) ∷ providers) (here, plain) = ground (
  arith,
  provider_entry_from_value-provider_value id p here,
  deserialize-serialize providers plain,
)
