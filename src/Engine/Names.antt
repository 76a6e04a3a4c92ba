-- ===== src/Engine/Names.antt =====
-- The names of the types of providers are apart: a name leads back to its type.
use linguaray.Base.{◌≡◌, refl, some}
use linguaray.Engine.{ProviderType, as_str, type_of}

pub type_of-as_str : (t : ProviderType) → type_of (as_str t) ≡ some t
unfolding type_of
type_of-as_str ProviderType.baidu = refl
type_of-as_str ProviderType.caiyun = refl
type_of-as_str ProviderType.deepl = refl
type_of-as_str ProviderType.google = refl
type_of-as_str ProviderType.tencent = refl
type_of-as_str ProviderType.youdao = refl
type_of-as_str ProviderType.anthropic = refl
type_of-as_str ProviderType.openai = refl
type_of-as_str ProviderType.ollama = refl
type_of-as_str ProviderType.xai = refl
type_of-as_str ProviderType.deepseek = refl
type_of-as_str ProviderType.qwen = refl
type_of-as_str _ = refl
