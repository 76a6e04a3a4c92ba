-- ===== src/Glossary/Compliance/Once.antt =====
-- What the report says of one entry.
use mathlib.Core.List.{append-nil}
use linguaray.Base.{
  ◌≡◌, ◌∙◌, ap, Bool, true, ◌&&◌, Option, none, some, List, [], ◌∷◌, arith, if◌then◌else◌, any,
  find, retain, retain-append, Text, same, same_iff, contains,
}
use linguaray.Glossary.{GlossaryMatch}
use linguaray.Glossary.Compliance.{
  forbidden_used, GlossaryComplianceIssue, is_seen, issue, forbidden_issues, issues_of, check_from,
  check_compliance,
}

abbrev pub is_about : Text → Text → GlossaryComplianceIssue → Bool
is_about book entry i = same i.book_id book && same i.entry_id entry

abbrev pub is_hit : Text → Text → GlossaryMatch → Bool
is_hit book entry h = same h.book_id book && same h.entry_id entry

module _ (to_lowercase : Text → Text) (book entry : Text) where
  retain-forbidden_issues :
      (h : GlossaryMatch) (haystack : Text) (values : List Text)
      → retain (is_about book entry) (forbidden_issues to_lowercase h haystack values)
        ≡ (if is_hit book entry h then forbidden_issues to_lowercase h haystack values else [])
  unfolding forbidden_issues
  retain-forbidden_issues h haystack [] = ground arith
  retain-forbidden_issues h haystack (v ∷ vs) =
      ground (arith, retain-forbidden_issues h haystack vs)

  retain-issues_of :
      (h : GlossaryMatch) (haystack : Text)
      → retain (is_about book entry) (issues_of to_lowercase h haystack)
        ≡ (if is_hit book entry h then issues_of to_lowercase h haystack else [])
  unfolding issues_of
  retain-issues_of h haystack = ground (arith, retain-forbidden_issues h haystack h.forbidden)

  -- The report of the entry's first hit, if the entry has not been seen.
  pub first_report : Text → Option GlossaryMatch → List GlossaryComplianceIssue
  first_report haystack none = []
  first_report haystack (some h) = issues_of to_lowercase h haystack

  abbrev is_known : List (Text × Text) → Bool
  is_known seen = any (λ k. same k.0 book && same k.1 entry) seen

  seen-eq_known :
      (h : GlossaryMatch) (seen : List (Text × Text))
      → is_hit book entry h ≡ true
      → is_seen h seen ≡ is_known seen
  seen-eq_known h seen e =
      let b : h.book_id ≡ book = ground (arith, same_iff h.book_id book) in
      let i : h.entry_id ≡ entry = ground (arith, same_iff h.entry_id entry) in
      ap (λ x. any (λ k. same k.0 x && same k.1 h.entry_id) seen) b
      ∙ ap (λ x. any (λ k. same k.0 book && same k.1 x) seen) i

  retain-check_from :
      (haystack : Text) (seen : List (Text × Text)) (hits : List GlossaryMatch)
      → retain (is_about book entry) (check_from to_lowercase haystack seen hits)
        ≡ (if is_known seen then [] else first_report haystack (find (is_hit book entry) hits))
  unfolding check_from first_report
  retain-check_from haystack seen [] = ground arith
  retain-check_from haystack seen (h ∷ hits) =
      let later = check_from to_lowercase haystack ((h.book_id, h.entry_id) ∷ seen) hits in
      let own = issues_of to_lowercase h haystack in
      ground (
        arith,
        retain-check_from haystack seen hits,
        retain-check_from haystack ((h.book_id, h.entry_id) ∷ seen) hits,
        retain-append (is_about book entry) own later,
        retain-issues_of h haystack,
        append-nil own,
        seen-eq_known h seen,
      )

  -- What the report says of an entry is what its first hit gives: a missing translation at most
  -- once, and a line for each forbidden text that the output holds. Later hits of the entry add
  -- nothing, and an entry without a hit is not reported.
  pub check_compliance_once :
      (hits : List GlossaryMatch) (translated : Text)
      → retain (is_about book entry) (check_compliance to_lowercase hits translated)
        ≡ first_report (to_lowercase translated) (find (is_hit book entry) hits)
  unfolding check_compliance
  check_compliance_once hits translated = retain-check_from (to_lowercase translated) [] hits

-- An entry whose output holds two of its forbidden texts is reported twice for the same kind.
pub check_compliance_twice :
    (to_lowercase : Text → Text) (h : GlossaryMatch) (v w translated : Text)
    → h.forbidden ≡ v ∷ w ∷ []
    → contains (to_lowercase translated) (to_lowercase v) ≡ true
    → contains (to_lowercase translated) (to_lowercase w) ≡ true
    → contains (to_lowercase translated) (to_lowercase h.translation) ≡ true
    → check_compliance to_lowercase (h ∷ []) translated
      ≡ issue h forbidden_used (some v) ∷ issue h forbidden_used (some w) ∷ []
unfolding check_compliance
check_compliance_twice to_lowercase h v w translated two holds_v holds_w holds =
    rw (holds, two, holds_v, holds_w)
