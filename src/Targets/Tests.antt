-- ===== src/Targets/Tests.antt =====
-- Runs of the choice of routes, and its theorem at a concrete list.
use linguaray.Base.{◌≡◌, refl, Bool, true, not, some, List, [], ◌∷◌, Text, codes, same}
use linguaray.Targets.{TranslationTarget, suits, filter_active}

abbrev route : Text → Bool → TranslationTarget
route source enabled = record { source = source; target = codes "zh-Hans"; enabled = enabled }

abbrev targets : List TranslationTarget
targets =
    route (codes "auto") true
    ∷ route (codes "en") true
    ∷ route (codes "ja") true
    ∷ route (codes "en") (not true)
    ∷ []

english :
    filter_active targets (some (codes "en"))
    ≡ route (codes "auto") true ∷ route (codes "en") true ∷ []
unfolding filter_active suits same
english = refl
