-- ===== src/Glossary/Compliance.antt =====
-- packages/runtime/rust/src/domain/glossary/compliance.rs
pub mod Once
use linguaray.Base.{
  Bool, true, false, not, ◌&&◌, ◌||◌, Option, none, some, List, [], ◌∷◌, ◌++◌, if◌then◌else◌, any,
  Text, same, contains,
}
use linguaray.Glossary.{GlossaryMatch}

pub data GlossaryIssueKind : Type 0 where
  missing_translation forbidden_used : GlossaryIssueKind

pub record GlossaryComplianceIssue : Type 0 where
  pub book_id : Text
  pub entry_id : Text
  pub kind : GlossaryIssueKind
  pub term : Text
  pub expected : Text
  pub found : Option Text

-- `seen.insert((book_id, entry_id))` fails
abbrev pub is_seen : GlossaryMatch → List (Text × Text) → Bool
is_seen hit seen = any (λ k. same k.0 hit.book_id && same k.1 hit.entry_id) seen

abbrev pub issue : GlossaryMatch → GlossaryIssueKind → Option Text → GlossaryComplianceIssue
issue hit kind found = record {
  book_id = hit.book_id;
  entry_id = hit.entry_id;
  kind = kind;
  term = hit.term;
  expected = hit.translation;
  found = found;
}

module _ (to_lowercase : Text → Text) where
  unfoldable pub forbidden_issues : GlossaryMatch → Text → List Text → List GlossaryComplianceIssue
  forbidden_issues hit haystack [] = []
  forbidden_issues hit haystack (value ∷ values) =
      let rest = forbidden_issues hit haystack values in
      if contains haystack (to_lowercase value)
      then issue hit forbidden_used (some value) ∷ rest
      else rest

  unfoldable pub issues_of : GlossaryMatch → Text → List GlossaryComplianceIssue
  unfolding forbidden_issues
  issues_of hit haystack =
      (if contains haystack (to_lowercase hit.translation)
        then []
        else issue hit missing_translation none ∷ [])
      ++ forbidden_issues hit haystack hit.forbidden

  unfoldable pub check_from :
      Text → List (Text × Text) → List GlossaryMatch → List GlossaryComplianceIssue
  unfolding issues_of
  check_from haystack seen [] = []
  check_from haystack seen (hit ∷ hits) =
      let rest = check_from haystack ((hit.book_id, hit.entry_id) ∷ seen) hits in
      let skip = check_from haystack seen hits in
      if is_seen hit seen then skip else issues_of hit haystack ++ rest

  unfoldable pub check_compliance : List GlossaryMatch → Text → List GlossaryComplianceIssue
  unfolding check_from
  check_compliance hits translated = check_from (to_lowercase translated) [] hits
