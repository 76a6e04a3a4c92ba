-- ===== src/Settings/Mapping.antt =====
-- packages/runtime/rust/src/domain/settings/engine_mapping.rs: a provider of the settings as the
-- configuration of an engine, and as the JSON object of the settings file.
use linguaray.Base.{
  Bool, true, false, not, Option, none, some, List, [], ◌∷◌, map, codes, retain, Text, same,
}
use linguaray.Base.Maps.{HashMap, get, insert, remove}
use linguaray.Errors.{Result, ok, err, invalid_provider_type, invalid_provider_config}
use linguaray.Engine.{
  ProviderType, ProviderConfig, Value, string, number, compound, boolean, null, as_str, type_of,
}
use linguaray.Settings.{ProviderConfigEntry}

-- `format!("{b}")` of a `bool`
abbrev pub bool_text : Bool → Text
bool_text true = codes "true"
bool_text false = codes "false"

unfoldable pub provider_config_from_settings : ProviderConfigEntry → ProviderConfig
provider_config_from_settings p = record {
  provider_type = p.kind;
  options = map (λ f. (f.0, string f.1)) (retain (λ f. not (same f.0 (codes "presetId"))) p.fields);
}

-- the pairs of `normalize_provider_config_keys`
abbrev pub renamed_keys : List (Text × Text)
renamed_keys =
    (codes "api_key", codes "apiKey")
    ∷ (codes "app_key", codes "appKey")
    ∷ (codes "app_id", codes "appId")
    ∷ (codes "base_url", codes "baseUrl")
    ∷ (codes "request_id", codes "requestId")
    ∷ (codes "secret_id", codes "secretId")
    ∷ (codes "secret_key", codes "secretKey")
    ∷ (codes "app_secret", codes "appSecret")
    ∷ (codes "picture_base_url", codes "pictureBaseUrl")
    ∷ []

unfoldable pub rename_keys : List (Text × Text) → HashMap Value → HashMap Value
rename_keys [] object = object
rename_keys ((from, to) ∷ pairs) object =
    rename_keys pairs
      (elim (get from object) [ some v ↦ insert to v (remove from object) | none ↦ object ])

-- `serde_json::to_value` of a configuration: the type, then the options, flattened.
unfoldable pub insert_all : HashMap Value → HashMap Value → HashMap Value
insert_all [] object = object
insert_all ((k, v) ∷ options) object = insert_all options (insert k v object)

unfoldable pub provider_config_json_value : ProviderConfig → HashMap Value
unfolding rename_keys insert_all
provider_config_json_value c =
    rename_keys renamed_keys
      (insert_all c.options ((codes "type", string (as_str c.provider_type)) ∷ []))

unfoldable pub provider_config_field_value : Value → Option Text
provider_config_field_value (string v) = some v
provider_config_field_value (number v) = some v
provider_config_field_value (boolean b) = some (bool_text b)
provider_config_field_value null = none
provider_config_field_value (compound v) = some v

unfoldable pub field_values : HashMap Value → HashMap Text
unfolding provider_config_field_value
field_values [] = []
field_values ((k, v) ∷ object) =
    let rest = field_values object in
    elim (provider_config_field_value v) [ some text ↦ (k, text) ∷ rest | none ↦ rest ]

unfoldable pub provider_entry_from_config : Text → ProviderConfig → ProviderConfigEntry
unfolding provider_config_json_value field_values
provider_entry_from_config id config = record {
  id = id;
  kind = config.provider_type;
  fields = field_values (remove (codes "type") (provider_config_json_value config));
  created_at = none;
  preset_id = none;
}

-- `from_value::<ProviderConfig>` of an object
unfoldable pub config_of : HashMap Value → Option ProviderConfig
config_of object = elim (get (codes "type") object) [
  | some (string name) ↦ elim (type_of name) [
    | some t ↦ some (record { provider_type = t; options = remove (codes "type") object })
    | none ↦ none
  ]
  | _ ↦ none
]

unfoldable pub parse_provider_type : Text → Result ProviderType
unfolding type_of
parse_provider_type value = elim (type_of value) [
  | some t ↦ ok t
  | none ↦ err (invalid_provider_type value)
]

-- `and_then(as_str)` of what `remove` gives
abbrev pub string_of : Option Value → Option Text
string_of (some (string v)) = some v
string_of _ = none

unfoldable pub provider_entry_from_value : Text → HashMap Value → Result ProviderConfigEntry
provider_entry_from_value id object = elim (config_of (remove (codes "presetId") object)) [
  | some config ↦ ok (record (provider_entry_from_config id config) {
    preset_id = string_of (get (codes "presetId") object);
  })
  | none ↦ err (invalid_provider_config id)
]

-- the insertion of the preset in `serialize_providers`
abbrev pub insert_preset : Option Text → HashMap Value → HashMap Value
insert_preset (some preset) object = insert (codes "presetId") (string preset) object
insert_preset none object = object

-- the object of one provider in the file
unfoldable pub provider_value : ProviderConfigEntry → HashMap Value
provider_value p =
    insert_preset p.preset_id (provider_config_json_value (provider_config_from_settings p))

unfoldable pub serialize_providers : HashMap ProviderConfigEntry → HashMap (HashMap Value)
serialize_providers providers = map (λ p. (p.0, provider_value p.1)) providers

-- A provider that cannot be read is left out.
unfoldable pub deserialize_providers : HashMap (HashMap Value) → HashMap ProviderConfigEntry
deserialize_providers [] = []
deserialize_providers ((id, object) ∷ values) =
    let rest = deserialize_providers values in
    elim (provider_entry_from_value id object) [ ok p ↦ (id, p) ∷ rest | err e ↦ rest ]
