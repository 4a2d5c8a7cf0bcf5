-- ===== src/Config/Tests.antt =====
-- The theorems on settings at concrete inputs, with values that are texts, a validation that accepts all,
-- and patterns that are plain texts.
use brup_http_proxy.Prelude.{
  ◌≡◌, refl, Bool, true, false, not, ◌&&◌, ◌||◌, Option, some, List, [], ◌∷◌, any,
}
use brup_http_proxy.Bytes.{Bytes, codes, bytes_eq, contains, lower}
use brup_http_proxy.Result.{Result, ok}
use brup_http_proxy.Config.Overrides.{key_in, overridden}
use brup_http_proxy.Config.Overrides.Laws.{lookup, lookup-overridden_system}
use brup_http_proxy.Config.Scope.{
  ScopeSettings, in_scope, should_intercept, extension, skipped, strip_dots,
}
use brup_http_proxy.Config.Scope.Laws.{usable, hits, in_scope-rules}

abbrev system : List (Bytes × Bytes)
system = (codes "vpn_required", codes "true") ∷ (codes "max_history", codes "50000") ∷ []

abbrev overrides : List (Bytes × Bytes)
overrides = (codes "vpn_required", codes "false") ∷ (codes "max_history", codes "10") ∷ []

lookup-overridden_system_example :
    lookup (codes "vpn_required") (overridden system overrides)
    ≡ lookup (codes "vpn_required") system
unfolding key_in
lookup-overridden_system_example =
    lookup-overridden_system (codes "vpn_required") system overrides refl

abbrev accept : List (Bytes × Bytes) → Result (List (Bytes × Bytes))
accept data' = ok data'

abbrev dump : List (Bytes × Bytes) → List (Bytes × Bytes)
dump data' = data'

abbrev compile : Bytes → Option Bytes
compile pattern = some pattern

abbrev search : Bytes → Bytes → Bool
search pattern url = contains pattern url

abbrev settings : ScopeSettings
settings = record {
  scope_include =
      record { enabled = true; pattern = codes "shop" }
      ∷ record { enabled = false; pattern = codes "x" }
      ∷ [];
  scope_exclude = record { enabled = true; pattern = codes "logout" } ∷ [];
  intercept_enabled = true;
  intercept_skip_extensions = codes ".CSS" ∷ codes "js" ∷ [];
}

style_skipped :
    should_intercept compile search lower settings (codes "http://shop/a.b/style.CSS?v=1") ≡ false
unfolding should_intercept extension skipped strip_dots lower contains bytes_eq
style_skipped = refl

in_scope-rules_example : in_scope compile search lower settings (codes "http://shop/logout") ≡ (
    (not (any (usable compile search lower) settings.scope_include)
      || any (hits compile search lower (codes "http://shop/logout")) settings.scope_include)
    && not (any (hits compile search lower (codes "http://shop/logout")) settings.scope_exclude))
in_scope-rules_example = in_scope-rules compile search lower settings (codes "http://shop/logout")
