-- ===== src/Targets.antt =====
-- `TranslationTarget::filter_active` of crates/core/src/model/language.rs: the routes of a
-- translation for a detected language.
use linguaray.Base.{
  Bool, true, ◌||◌, Option, none, some, List, if◌then◌else◌, is_empty, retain, Text, codes, same,
}
mod Active
mod Tests

pub record TranslationTarget : Type 0 where
  pub source : Text
  pub target : Text
  pub enabled : Bool

abbrev pub auto_source : Text
auto_source = codes "auto"

-- `detected.is_none_or(|language| target.source == language)`, or the source is `auto`
unfoldable pub suits : Option Text → TranslationTarget → Bool
unfolding same
suits none t = true
suits (some language) t = same t.source auto_source || same t.source language

unfoldable pub filter_active : List TranslationTarget → Option Text → List TranslationTarget
unfolding suits
filter_active targets detected =
    let enabled = retain (λ t. t.enabled) targets in
    let selected = retain (suits detected) enabled in
    if is_empty selected then enabled else selected
