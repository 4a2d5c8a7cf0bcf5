-- ===== src/HttpMessage/Rules.antt =====
-- `apply_header_rules` of backend/brup/http_message.py.
pub mod Safety
use brup_http_proxy.Prelude.{
  ℕ, suc, ◌+◌, Bool, true, false, not, ◌||◌, ◌&&◌, List, [], ◌∷◌, ◌++◌, ◌==◌, if◌then◌else◌,
  is_empty, length,
}
use brup_http_proxy.Bytes.{Bytes, strip_text, encode, encode_latin}
use brup_http_proxy.HttpMessage.Headers.{Headers, remove_header, set_header}
use brup_http_proxy.Config.HeaderRules.{HeaderRule, Side, Action, set, add, remove, same_side}

-- the headers, and how many rules fired
unfoldable pub fire : Action → Bytes → Bytes → Headers → Headers × ℕ
fire remove name value headers =
    let left = remove_header headers (encode name) in
    (left, if length left == length headers then 0 else 1)
fire add name value headers = (headers ++ (encode_latin name, encode_latin value) ∷ [], 1)
fire set name value headers = (set_header headers (encode name) (encode_latin value), 1)

-- one round of the loop
unfoldable pub apply_rule : HeaderRule → Side → Headers → Headers × ℕ
apply_rule rule target headers =
    let name = strip_text rule.name in
    if not rule.enabled || not (same_side rule.target target)
    then (headers, 0)
    else if is_empty name
    then (headers, 0)
    else fire rule.action name rule.value headers

unfoldable pub apply_header_rules : List HeaderRule → Side → Headers → Headers × ℕ
apply_header_rules [] target headers = (headers, 0)
apply_header_rules (rule ∷ rules) target headers =
    let (headers', fired) = apply_rule rule target headers in
    let (final, more) = apply_header_rules rules target headers' in (final, fired + more)
