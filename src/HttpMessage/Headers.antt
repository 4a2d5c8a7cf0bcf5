-- ===== src/HttpMessage/Headers.antt =====
-- Header lists of backend/brup/http_message.py: `get_header`, `get_all_headers`, `remove_header` and
-- `set_header`. A header list is the list of pairs that the source mutates in place; the functions
-- return the new list. A name that is a `str` in the source is its encoded bytes here.
pub mod Laws
use brup_http_proxy.Prelude.{Bool, true, false, Option, none, some, List, [], ◌∷◌, if◌then◌else◌}
use brup_http_proxy.Bytes.{Bytes, bytes_eq, lower}

abbrev pub Header : Type 0
Header = Bytes × Bytes

abbrev pub Headers : Type 0
Headers = List Header

-- `a.lower() == b.lower()`
unfoldable pub same_name : Bytes → Bytes → Bool
unfolding bytes_eq lower
same_name a b = bytes_eq (lower a) (lower b)

unfoldable pub get_header : Headers → Bytes → Option Bytes
get_header [] name = none
get_header ((n, v) ∷ hs) name = if same_name n name then some v else get_header hs name

unfoldable pub get_all_headers : Headers → Bytes → List Bytes
get_all_headers [] name = []
get_all_headers ((n, v) ∷ hs) name =
    let rest = get_all_headers hs name in if same_name n name then v ∷ rest else rest

unfoldable pub remove_header : Headers → Bytes → Headers
remove_header [] name = []
remove_header ((n, v) ∷ hs) name =
    let rest = remove_header hs name in if same_name n name then rest else (n, v) ∷ rest

-- the loop of `set_header`, and what follows it
unfoldable pub set_from : Bool → Headers → Bytes → Bytes → Headers
set_from done [] name value = if done then [] else (name, value) ∷ []
set_from done ((n, v) ∷ hs) name value =
    let after = set_from true hs name value in
    let other = set_from done hs name value in
    elim (same_name n name) [
      | true ↦ if done then after else (n, value) ∷ after
      | false ↦ (n, v) ∷ other
    ]

unfoldable pub set_header : Headers → Bytes → Bytes → Headers
unfolding set_from
set_header hs name value = set_from false hs name value
