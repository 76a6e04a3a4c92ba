-- ===== src/Engine.antt =====
-- crates/engine/src/engine.rs: the types of providers, their configurations, and the registry of the
-- providers that are built. The constructors of the providers are a parameter.
pub mod Names
use linguaray.Base.{
  Bool, true, false, Option, none, some, List, [], ◌∷◌, map, codes, if◌then◌else◌, find, Text, same,
  le_text,
}
use linguaray.Base.Sort.{sort_by}
use linguaray.Base.Maps.{HashMap, get, insert}
use linguaray.Errors.{Result, ok, err, unknown_provider}

pub data ProviderType : Type 0 where
  baidu caiyun deepl google tencent youdao anthropic openai ollama xai deepseek qwen : ProviderType
  zhipu moonshot doubao groq gemini openai_compatible system ecdict google_web : ProviderType
  bing_web tencent_transmart_web libretranslate mtranserver : ProviderType

-- also the name in a file, `#[serde(rename)]`
unfoldable pub as_str : ProviderType → Text
as_str baidu = codes "baidu"
as_str caiyun = codes "caiyun"
as_str deepl = codes "deepl"
as_str google = codes "google"
as_str tencent = codes "tencent"
as_str youdao = codes "youdao"
as_str anthropic = codes "anthropic"
as_str openai = codes "openai"
as_str ollama = codes "ollama"
as_str xai = codes "xai"
as_str deepseek = codes "deepseek"
as_str qwen = codes "qwen"
as_str zhipu = codes "zhipu"
as_str moonshot = codes "moonshot"
as_str doubao = codes "doubao"
as_str groq = codes "groq"
as_str gemini = codes "gemini"
as_str openai_compatible = codes "openai_compatible"
as_str system = codes "system"
as_str ecdict = codes "ecdict"
as_str google_web = codes "google_web"
as_str bing_web = codes "bing_web"
as_str tencent_transmart_web = codes "tencent_transmart_web"
as_str libretranslate = codes "libretranslate"
as_str mtranserver = codes "mtranserver"

abbrev pub provider_types : List ProviderType
provider_types =
    baidu ∷ caiyun ∷ deepl ∷ google ∷ tencent ∷ youdao ∷ anthropic ∷ openai ∷ ollama ∷ xai
    ∷ deepseek ∷ qwen ∷ zhipu ∷ moonshot ∷ doubao ∷ groq ∷ gemini ∷ openai_compatible ∷ system
    ∷ ecdict ∷ google_web ∷ bing_web ∷ tencent_transmart_web ∷ libretranslate ∷ mtranserver ∷ []

-- `Deserialize for ProviderType`
unfoldable pub type_of : Text → Option ProviderType
unfolding as_str same
type_of name = find (λ t. same (as_str t) name) provider_types

-- A value of JSON or YAML; of a number, an array or an object only the text matters here.
pub data Value : Type 0 where
  string number compound : Text → Value
  boolean : Bool → Value
  null : Value

pub record ProviderConfig : Type 0 where
  pub provider_type : ProviderType
  pub options : HashMap Value

-- `Engine`
pub record Registry (P : Type 0) : Type 0 where
  pub providers : HashMap P

module _ {P : Type 0} where
  unfoldable pub require : Text → Registry P → Result P
  require name e = elim (get name e.providers) [
    | some p ↦ ok p
    | none ↦ err (unknown_provider name)
  ]

  unfoldable pub names : Registry P → List Text
  names e = sort_by le_text (map (λ p. p.0) e.providers)

  module _ (build_provider : Text → ProviderConfig → Result P) where
    -- the loop of `from_config`
    unfoldable pub build_all : HashMap ProviderConfig → Registry P → Result (Registry P)
    build_all [] e = ok e
    build_all ((id, config) ∷ configs) e = elim (build_provider id config) [
      | ok p ↦ build_all configs (record e { providers = insert id p e.providers })
      | err error ↦ err error
    ]

    unfoldable pub from_config : HashMap ProviderConfig → Result (Registry P)
    unfolding build_all
    from_config configs = build_all configs (record { providers = [] })
