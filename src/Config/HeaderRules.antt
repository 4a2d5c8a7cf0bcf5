-- ===== src/Config/HeaderRules.antt =====
-- `HeaderRule`, `PROTECTED_HEADERS` and `validate_header_rules` of backend/brup/config.py. Texts are
-- lists of code points.
use brup_http_proxy.Prelude.{
  ℕ, Bool, true, false, not, ◌&&◌, ◌||◌, Option, none, some, List, [], ◌∷◌, ◌==◌, leb,
  if◌then◌else◌, any, is_empty,
}
use brup_http_proxy.Bytes.{Bytes, codes, bytes_eq, lower, strip_text}
use brup_http_proxy.Result.{Result, ok, err, value_error, ◌>>=◌}

pub data Side : Type 0 where
  request response : Side

pub data Action : Type 0 where
  set add remove : Action

pub record HeaderRule : Type 0 where
  pub enabled : Bool
  pub target : Side
  pub action : Action
  pub name : Bytes
  pub value : Bytes

abbrev pub same_side : Side → Side → Bool
same_side request request = true
same_side response response = true
same_side _ _ = false

-- a letter or digit
abbrev pub alphanumeric : ℕ → Bool
alphanumeric c = (leb 48 c && leb c 57) || ((leb 65 c && leb c 90) || (leb 97 c && leb c 122))

abbrev pub member : ℕ → Bytes → Bool
member c s = any (λ x. x == c) s

-- one character of `_TOKEN_RE`
unfoldable pub is_token_char : ℕ → Bool
is_token_char c = alphanumeric c || member c (codes "!#$%&'*+-.^_`|~")

abbrev pub all_chars : (ℕ → Bool) → Bytes → Bool
all_chars p [] = true
all_chars p (c ∷ s) = p c && all_chars p s

-- `_TOKEN_RE.match(name)`, for a name that does not end in a line break, as none does after `strip`
unfoldable pub is_token : Bytes → Bool
unfolding is_token_char
is_token name = not (is_empty name) && all_chars is_token_char name

unfoldable pub is_protected : Bytes → Bool
unfolding bytes_eq lower
is_protected name =
    let low = lower name in
    bytes_eq low (codes "content-length") || bytes_eq low (codes "transfer-encoding")

-- The raw rule as its texts, a missing key being the empty text; `none` is a value that is no dict.
abbrev pub RawRule : Type 0
RawRule = Option (Bytes × Bytes)

abbrev pub raw_name : RawRule → Bytes
raw_name none = []
raw_name (some (name, value)) = name

abbrev pub raw_value : RawRule → Bytes
raw_value none = []
raw_value (some (name, value)) = value

abbrev pub breaks_line : Bytes → Bool
breaks_line s = member 13 s || member 10 s

-- one round of the loop
unfoldable pub validate_rule : RawRule → Result (Unit {0})
validate_rule raw =
    let name = strip_text (raw_name raw) in
    if is_empty name
    then err value_error
    else if not (is_token name)
    then err value_error
    else if is_protected name
    then err value_error
    else if breaks_line (raw_value raw) || breaks_line name
    then err value_error
    else ok tt

unfoldable pub validate_header_rules : List RawRule → Result (Unit {0})
unfolding validate_rule
validate_header_rules [] = ok tt
validate_header_rules (raw ∷ rules) = validate_rule raw >>= λ _. validate_header_rules rules
