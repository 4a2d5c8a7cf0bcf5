-- ===== src/Config/Scope/Laws.antt =====
-- What is in scope, and what is intercepted.
use brup_http_proxy.Prelude.{
  ◌≡◌, refl, Bool, true, false, not, ◌&&◌, ◌||◌, Option, none, some, List, [], ◌∷◌, arith, any,
  is_empty,
}
use brup_http_proxy.Bytes.{Bytes, strip_text}
use brup_http_proxy.Config.Scope.{
  ScopeRule, ScopeSettings, compile_rules, found_in, in_scope, should_intercept, extension, skipped,
}

module _ {ℓ} {P : Type ℓ} (compile : Bytes → Option P) (search : P → Bytes → Bool)
    (lower_text : Bytes → Bytes) where
  -- The rule counts: it is enabled, not blank, and its pattern is one.
  abbrev pub usable : ScopeRule → Bool
  usable rule =
      (rule.enabled && not (is_empty (strip_text rule.pattern)))
      && (elim (compile rule.pattern) [ none ↦ false | some p ↦ true ])

  -- The rule counts and its pattern is found in the text.
  abbrev pub hits : Bytes → ScopeRule → Bool
  hits url rule =
      (rule.enabled && not (is_empty (strip_text rule.pattern)))
      && (elim (compile rule.pattern) [ none ↦ false | some p ↦ search p url ])

  found_in-compile_rules :
      (url : Bytes) (rules : List ScopeRule)
      → found_in compile search lower_text url (compile_rules compile search lower_text rules)
        ≡ any (hits url) rules
  unfolding compile_rules
  found_in-compile_rules url [] = refl
  found_in-compile_rules url (rule ∷ rules) = ground (arith, found_in-compile_rules url rules)

  is_empty-compile_rules :
      (rules : List ScopeRule)
      → is_empty (compile_rules compile search lower_text rules) ≡ not (any usable rules)
  unfolding compile_rules
  is_empty-compile_rules [] = refl
  is_empty-compile_rules (rule ∷ rules) = ground (arith, is_empty-compile_rules rules)

  -- A text is in scope exactly if no usable exclude rule is found in it and, where there is any usable
  -- include rule, one is found in it: disabled, blank and invalid rules do not count.
  pub in_scope-rules :
      (settings : ScopeSettings) (url : Bytes)
      → in_scope compile search lower_text settings url ≡ (
          (not (any usable settings.scope_include) || any (hits url) settings.scope_include)
          && not (any (hits url) settings.scope_exclude))
  unfolding in_scope
  in_scope-rules settings url = ground (
    arith,
    found_in-compile_rules url settings.scope_include,
    found_in-compile_rules url settings.scope_exclude,
    is_empty-compile_rules settings.scope_include,
  )

  -- A message is held only if interception is on, its text is in scope and its extension
  -- is not skipped, where the path has an extension.
  pub should_intercept_only :
      (settings : ScopeSettings) (url ext : Bytes)
      → should_intercept compile search lower_text settings url ≡ true
      → extension compile search lower_text url ≡ some ext
      → (settings.intercept_enabled ≡ true)
        × (in_scope compile search lower_text settings url ≡ true)
        × (skipped compile search lower_text settings ext ≡ false)
  unfolding should_intercept
  should_intercept_only settings url ext h e =
      (ground (arith, h), ground (arith, h), ground (arith, h, e))
