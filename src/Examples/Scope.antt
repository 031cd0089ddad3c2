-- ===== src/Examples/Scope.antt =====
-- src/agentmarshal/journal/contracts.py: the theorems on scopes at a small one.
use agentmarshal.Common.{
  any, is_empty, pass, each, Text, text, text_eq, contains, contains_text, starts_with, ◌≡◌, refl,
  ◌↔◌, true, List, [], ◌∷◌,
}
use agentmarshal.Records.Forgeable.{forges_character, forges_rendered_text}
use agentmarshal.Contracts.Scope.{
  ends_with_slash, rstrip_slash, split_slash, has_dot_part, validate_scope_entry, entry_covers,
  scope_covers,
}
use agentmarshal.Contracts.Covers.{
  CoversSome, scope_covers_iff, IsRelative, validated_scope-IsRelative,
}
use agentmarshal.Examples.Samples.{simple}

abbrev small_scope : List Text
small_scope = text "README" ∷ text "docs/" ∷ []

abbrev inside : Text
inside = text "docs/a"

scope_facts :
    (validate_scope_entry simple (text "README") "scope" ≡ pass)
    × (validate_scope_entry simple (text "docs/") "scope" ≡ pass)
    × (scope_covers small_scope inside ≡ true)
unfolding validate_scope_entry text is_empty starts_with each contains any has_dot_part split_slash
    contains_text text_eq agentmarshal.Contracts.Scope.reject_control_characters
    forges_rendered_text forges_character scope_covers entry_covers ends_with_slash rstrip_slash
scope_facts = (refl, refl, refl)

scope_covers_iff_example : (scope_covers small_scope inside ≡ true) ↔ CoversSome inside small_scope
scope_covers_iff_example = scope_covers_iff small_scope inside

validated_scope-IsRelative_example : IsRelative inside
validated_scope-IsRelative_example =
    validated_scope-IsRelative simple "scope" small_scope inside
      (scope_facts.0, (scope_facts.1, tt)) scope_facts.2
