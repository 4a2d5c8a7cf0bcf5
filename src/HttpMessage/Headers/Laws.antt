-- ===== src/HttpMessage/Headers/Laws.antt =====
-- What a lookup finds after `set_header` and `remove_header`.
use brup_http_proxy.Prelude.{
  ◌≡◌, refl, Bool, true, false, Option, none, some, List, [], ◌∷◌, if◌then◌else◌, arith,
}
use brup_http_proxy.Bytes.{Bytes, lower}
use brup_http_proxy.Bytes.Laws.{bytes_eq_iff}
use brup_http_proxy.HttpMessage.Headers.{
  Headers, same_name, get_header, get_all_headers, remove_header, set_from, set_header,
}

abbrev pub first : List Bytes → Option Bytes
first [] = none
first (v ∷ vs) = some v

pub get_header-eq-first :
    (hs : Headers) (name : Bytes) → get_header hs name ≡ first (get_all_headers hs name)
unfolding get_header get_all_headers
get_header-eq-first [] name = refl
get_header-eq-first ((n, v) ∷ hs) name = ground (arith, get_header-eq-first hs name)

pub same_name_iff :
    (a b : Bytes)
    → (same_name a b ≡ true → lower a ≡ lower b) × (lower a ≡ lower b → same_name a b ≡ true)
unfolding same_name
same_name_iff a b = bytes_eq_iff (lower a) (lower b)

-- After removing a header no instance of it is left, and every other header keeps all its values in
-- their order.
pub get_all_headers-remove_header :
    (hs : Headers) (name other : Bytes)
    → get_all_headers (remove_header hs name) other
      ≡ (if same_name name other then [] else get_all_headers hs other)
unfolding get_all_headers remove_header
get_all_headers-remove_header [] name other = ground arith
get_all_headers-remove_header ((n, v) ∷ hs) name other = ground (
  arith,
  get_all_headers-remove_header hs name other,
  same_name_iff n name,
  same_name_iff n other,
  same_name_iff name other,
)

get_all_headers-set_from :
    (done : Bool) (hs : Headers) (name value other : Bytes)
    → get_all_headers (set_from done hs name value) other ≡ (
        if same_name name other
        then (if done then [] else value ∷ [])
        else get_all_headers hs other)
unfolding get_all_headers set_from
get_all_headers-set_from done [] name value other = ground arith
get_all_headers-set_from done ((n, v) ∷ hs) name value other = ground (
  arith,
  get_all_headers-set_from true hs name value other,
  get_all_headers-set_from done hs name value other,
  same_name_iff n name,
  same_name_iff n other,
  same_name_iff name other,
)

-- After setting a header it has exactly the one value, under any casing of its name, and every other
-- header keeps all its values in their order.
pub get_all_headers-set_header :
    (hs : Headers) (name value other : Bytes)
    → get_all_headers (set_header hs name value) other
      ≡ (if same_name name other then value ∷ [] else get_all_headers hs other)
unfolding set_header
get_all_headers-set_header hs name value other = get_all_headers-set_from false hs name value other

pub get_header-set_header :
    (hs : Headers) (name value other : Bytes)
    → get_header (set_header hs name value) other
      ≡ (if same_name name other then some value else get_header hs other)
get_header-set_header hs name value other = ground (
  arith,
  get_header-eq-first (set_header hs name value) other,
  get_header-eq-first hs other,
  get_all_headers-set_header hs name value other,
)

pub get_header-remove_header :
    (hs : Headers) (name other : Bytes)
    → get_header (remove_header hs name) other
      ≡ (if same_name name other then none else get_header hs other)
get_header-remove_header hs name other = ground (
  arith,
  get_header-eq-first (remove_header hs name) other,
  get_header-eq-first hs other,
  get_all_headers-remove_header hs name other,
)
