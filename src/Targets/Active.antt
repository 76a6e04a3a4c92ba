-- ===== src/Targets/Active.antt =====
-- Detection chooses among the enabled routes, and never disables all of them.
use linguaray.Base.{Bool}
use linguaray.Targets.{TranslationTarget}

abbrev pub is_enabled : TranslationTarget → Bool
is_enabled t = t.enabled
