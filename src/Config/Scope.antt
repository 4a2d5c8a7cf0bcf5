-- ===== src/Config/Scope.antt =====
-- `_compile`, `in_scope` and `should_intercept` of backend/brup/config.py, over any regular-expression
-- engine: `compile pattern` is `re.compile(pattern, re.IGNORECASE)`, with `none` for re.error, and
-- `search p url` tells whether `p.search(url)` finds a match. Letters change case by `lower_text`, which
-- stands for `str.lower`.
pub mod Laws
use brup_http_proxy.Prelude.{
  ℕ, Bool, true, false, not, ◌&&◌, ◌||◌, Option, none, some, List, [], ◌∷◌, map, if◌then◌else◌, any,
  is_empty, ◌==◌,
}
use brup_http_proxy.Bytes.{Bytes, bytes_eq, strip_text, split_on, rpartition}

pub record ScopeRule : Type 0 where
  pub enabled : Bool
  pub pattern : Bytes

-- the fields of Settings that decide on scope and interception
pub record ScopeSettings : Type 0 where
  pub scope_include : List ScopeRule
  pub scope_exclude : List ScopeRule
  pub intercept_enabled : Bool
  pub intercept_skip_extensions : List Bytes

-- `s.split(c, 1)[0]`
unfoldable pub before : ℕ → Bytes → Bytes
before c [] = []
before c (x ∷ s) = let rest = before c s in if x == c then [] else x ∷ rest

-- `s.lstrip(".")`
unfoldable pub strip_dots : Bytes → Bytes
strip_dots [] = []
strip_dots (x ∷ s) = let rest = strip_dots s in if x == 46 then rest else x ∷ s

-- `_, _, last = s.rpartition("/")`
unfoldable pub after_last : ℕ → Bytes → Bytes
unfolding rpartition
after_last c s = elim (rpartition c s) [ none ↦ s | some parts ↦ parts.1 ]

module _ {ℓ} {P : Type ℓ} (compile : Bytes → Option P) (search : P → Bytes → Bool)
    (lower_text : Bytes → Bytes) where
  unfoldable pub compile_rules : List ScopeRule → List P
  unfolding strip_text
  compile_rules [] = []
  compile_rules (rule ∷ rules) =
      let rest = compile_rules rules in
      if not rule.enabled || is_empty (strip_text rule.pattern)
      then rest
      else elim (compile rule.pattern) [ none ↦ rest | some p ↦ p ∷ rest ]

  -- `any(p.search(url) for p in patterns)`
  abbrev pub found_in : Bytes → List P → Bool
  found_in url patterns = any (λ p. search p url) patterns

  unfoldable pub in_scope : ScopeSettings → Bytes → Bool
  unfolding compile_rules
  in_scope settings url =
      let includes = compile_rules settings.scope_include in
      let excludes = compile_rules settings.scope_exclude in
      if not (is_empty includes) && not (found_in url includes)
      then false
      else not (found_in url excludes)

  -- the extension of the last segment of the path
  unfoldable pub extension : Bytes → Option Bytes
  unfolding before after_last rpartition
  extension url =
      let last = after_last b'/' (before b'#' (before b'?' url)) in
      elim (rpartition b'.' last) [ none ↦ none | some parts ↦ some (lower_text parts.1) ]

  unfoldable pub skipped : ScopeSettings → Bytes → Bool
  unfolding strip_dots
  skipped settings ext =
      any (λ e. bytes_eq ext (strip_dots (lower_text e))) settings.intercept_skip_extensions

  unfoldable pub should_intercept : ScopeSettings → Bytes → Bool
  unfolding in_scope extension skipped
  should_intercept settings url =
      if not settings.intercept_enabled || not (in_scope settings url)
      then false
      else elim (extension url) [ none ↦ true | some ext ↦ not (skipped settings ext) ]
