-- ===== src/HttpMessage/Rules/Safety.antt =====
-- Header rules that pass validation do not touch the framing headers and do not break lines.
use brup_http_proxy.Prelude.{
  ℕ, ◌≤◌, ◌<◌, ◌≡◌, ◌≢◌, refl, ◌∙◌, ap, Bool, true, false, not, ◌||◌, some, List, [], ◌∷◌, ◌++◌,
  arith, All, All-append, is_empty, Bool-cases, ◌⊎◌, inl, inr, ltb_of_lt,
}
use brup_http_proxy.Bytes.{Bytes, codes, bytes_eq, strip_text, utf8, encode, encode_latin}
use brup_http_proxy.Bytes.Lines.{NoByte}
use brup_http_proxy.Result.{Result, ok, err}
use brup_http_proxy.Config.HeaderRules.{
  HeaderRule, Side, same_side, Action, set, add, remove, alphanumeric, is_token_char, is_token,
  all_chars, is_protected, member, breaks_line, RawRule, validate_rule, validate_header_rules,
}
use brup_http_proxy.HttpMessage.Headers.{
  Header, Headers, same_name, get_all_headers, remove_header, set_from, set_header,
}
use brup_http_proxy.HttpMessage.Headers.Laws.{
  get_all_headers-remove_header, get_all_headers-set_header, same_name_iff,
}
use brup_http_proxy.HttpMessage.Rules.{fire, apply_rule, apply_header_rules}

member-lt : (n c : ℕ) (s : Bytes) → All (λ x. x < n) s → member c s ≡ true → c < n
member-lt n c [] h e = cc e
member-lt n c (x ∷ s) h e = ground (arith, member-lt n c s h.1)

member-le : (n c : ℕ) (s : Bytes) → All (λ x. n ≤ x) s → member c s ≡ true → n ≤ c
member-le n c [] h e = cc e
member-le n c (x ∷ s) h e = ground (arith, member-le n c s h.1)

-- a printable ASCII character
abbrev IsPrintable : ℕ → Type 0
IsPrintable c = (33 ≤ c) × (c < 128)

alphanumeric-IsPrintable : (c : ℕ) → alphanumeric c ≡ true → IsPrintable c
alphanumeric-IsPrintable c h = ground arith

or-cases : (a b : Bool) → (a || b) ≡ true → (a ≡ true) ⊎ (b ≡ true)
or-cases true b h = inl refl
or-cases false b h = inr h

is_token_char-IsPrintable : (c : ℕ) → is_token_char c ≡ true → IsPrintable c
unfolding is_token_char
is_token_char-IsPrintable c h =
    let marks = codes "!#$%&'*+-.^_`|~" in
    elim (or-cases (alphanumeric c) (member c marks) h) [
      | inl e ↦ alphanumeric-IsPrintable c e
      | inr e ↦ (member-le 33 c marks (omega arith) e, member-lt 128 c marks (omega arith) e)
    ]

all_chars_sound :
    (p : ℕ → Bool) (P : ℕ → Type 0)
    → ((c : ℕ) → p c ≡ true → P c)
    → (s : Bytes) → all_chars p s ≡ true
    → All P s
all_chars_sound p P f [] h = tt
all_chars_sound p P f (c ∷ s) h = elim (Bool-cases (p c)) [
  | inl e ↦ (f c e, all_chars_sound p P f s (ground arith))
  | inr e ↦ absurd (ground arith)
]

is_token-IsPrintable : (s : Bytes) → is_token s ≡ true → All IsPrintable s
unfolding is_token
is_token-IsPrintable [] h = tt
is_token-IsPrintable (c ∷ s) h =
    all_chars_sound is_token_char IsPrintable is_token_char-IsPrintable (c ∷ s) h

encode_printable : (s : Bytes) → All IsPrintable s → encode s ≡ s
unfolding encode
encode_printable [] h = refl
encode_printable (c ∷ s) h = rw (ltb_of_lt c 128 h.0.1, encode_printable s h.1, utf8)

encode_latin_printable : (s : Bytes) → All IsPrintable s → encode_latin s ≡ s
unfolding encode_latin
encode_latin_printable [] h = refl
encode_latin_printable (c ∷ s) h =
    rw (ltb_of_lt c 256 (omega arith)) (ap (λ t. c ∷ t) (encode_latin_printable s h.1))

-- what validation establishes of a rule's stripped name and of its value
record IsAccepted (name value : Bytes) : Type 0 where
  printable : All IsPrintable name
  free : is_protected name ≡ false
  unbroken : breaks_line value ≡ false

accepted :
    (name value : Bytes)
    → validate_rule (some (name, value)) ≡ ok tt
    → IsAccepted (strip_text name) value
unfolding validate_rule
accepted name value h = record {
  printable = is_token-IsPrintable (strip_text name) (ground arith);
  free = ground arith;
  unbroken = ground arith;
}

-- every raw rule of a list, as validation sees it
abbrev pub raw_rules : List HeaderRule → List RawRule
raw_rules [] = []
raw_rules (r ∷ rs) = some (r.name, r.value) ∷ raw_rules rs

validated :
    (r : HeaderRule) (rs : List HeaderRule)
    → validate_header_rules (raw_rules (r ∷ rs)) ≡ ok tt
    → IsAccepted (strip_text r.name) r.value × (validate_header_rules (raw_rules rs) ≡ ok tt)
unfolding validate_header_rules
validated r rs h = go (validate_rule (some (r.name, r.value))) refl
  where
    go :
        (e : Result Unit)
        → validate_rule (some (r.name, r.value)) ≡ e
        → IsAccepted (strip_text r.name) r.value × (validate_header_rules (raw_rules rs) ≡ ok tt)
    go (ok tt) e = (accepted r.name r.value e, rw (e, validate_header_rules) at h)
    go (err x) e = cc (h, e)

not_same :
    (name m : Bytes) → is_protected name ≡ false → is_protected m ≡ true → same_name name m ≡ false
unfolding is_protected
not_same name m free held = elim (Bool-cases (same_name name m)) [
  | inl e ↦ cc (
    ap (λ low. bytes_eq low (codes "content-length") || bytes_eq low (codes "transfer-encoding"))
        ((same_name_iff name m).0 e),
    free,
    held,
  )
  | inr e ↦ e
]

get_all_headers-append_ne :
    (hs : Headers) (name value m : Bytes)
    → same_name name m ≡ false
    → get_all_headers (hs ++ (name, value) ∷ []) m ≡ get_all_headers hs m
unfolding get_all_headers
get_all_headers-append_ne [] name value m h = rw h
get_all_headers-append_ne ((n, v) ∷ hs) name value m h =
    ground (arith, get_all_headers-append_ne hs name value m h)

fire_protected :
    (a : Action) (name value : Bytes) (headers : Headers) (m : Bytes)
    → IsAccepted name value
    → is_protected m ≡ true
    → get_all_headers (fire a name value headers).0 m ≡ get_all_headers headers m
unfolding fire
fire_protected remove name value headers m h held =
    rw (
      encode_printable name h.printable,
      get_all_headers-remove_header,
      not_same name m h.free held,
    )
fire_protected add name value headers m h held =
    rw (encode_latin_printable name h.printable)
      (get_all_headers-append_ne headers name (encode_latin value) m (not_same name m h.free held))
fire_protected set name value headers m h held =
    rw (encode_printable name h.printable, get_all_headers-set_header, not_same name m h.free held)

apply_rule_protected :
    (r : HeaderRule) (target : Side) (headers : Headers) (m : Bytes)
    → IsAccepted (strip_text r.name) r.value
    → is_protected m ≡ true
    → get_all_headers (apply_rule r target headers).0 m ≡ get_all_headers headers m
unfolding apply_rule
apply_rule_protected r target headers m h held =
    ground (arith, fire_protected r.action (strip_text r.name) r.value headers m h held)

-- Rules that `validate_header_rules` accepts never change a framing header: every Content-Length and
-- Transfer-Encoding value stays, in order, whatever the rules and the message.
pub apply_header_rules_protected :
    (rules : List HeaderRule) (target : Side) (headers : Headers) (m : Bytes)
    → validate_header_rules (raw_rules rules) ≡ ok tt
    → is_protected m ≡ true
    → get_all_headers (apply_header_rules rules target headers).0 m ≡ get_all_headers headers m
unfolding apply_header_rules
apply_header_rules_protected [] target headers m h held = refl
apply_header_rules_protected (r ∷ rs) target headers m h held =
    let (here, later) = validated r rs h in
    apply_header_rules_protected rs target (apply_rule r target headers).0 m later held
    ∙ apply_rule_protected r target headers m here held

-- a text without line breaks
abbrev pub Unbroken : Bytes → Type 0
Unbroken s = NoByte 13 s × NoByte 10 s

abbrev pub UnbrokenHeader : Header → Type 0
UnbrokenHeader h = Unbroken h.0 × Unbroken h.1

member-NoByte : (c : ℕ) (s : Bytes) → member c s ≡ false → NoByte c s
member-NoByte c [] h = tt
member-NoByte c (x ∷ s) h = (ground arith, member-NoByte c s (ground arith))

printable-Unbroken : (s : Bytes) → All IsPrintable s → Unbroken s
printable-Unbroken [] h = (tt, tt)
printable-Unbroken (c ∷ s) h =
    let (r, n) = printable-Unbroken s h.1 in ((omega arith, r), (omega arith, n))

encode_latin-NoByte : (c : ℕ) (s : Bytes) → c ≢ 63 → NoByte c s → NoByte c (encode_latin s)
unfolding encode_latin
encode_latin-NoByte c [] e h = tt
encode_latin-NoByte c (x ∷ s) e h = (ground arith, encode_latin-NoByte c s e h.1)

value-Unbroken : (value : Bytes) → breaks_line value ≡ false → Unbroken (encode_latin value)
value-Unbroken value h = (
  encode_latin-NoByte 13 value (omega arith) (member-NoByte 13 value (ground arith)),
  encode_latin-NoByte 10 value (omega arith) (member-NoByte 10 value (ground arith)),
)

remove_header-Unbroken :
    (hs : Headers) (name : Bytes)
    → All UnbrokenHeader hs
    → All UnbrokenHeader (remove_header hs name)
unfolding remove_header
remove_header-Unbroken [] name h = tt
remove_header-Unbroken ((n, v) ∷ hs) name h = elim (Bool-cases (same_name n name)) [
  | inl e ↦ rw (e, remove_header) (remove_header-Unbroken hs name h.1)
  | inr e ↦ rw (e, remove_header) (h.0, remove_header-Unbroken hs name h.1)
]

set_from-Unbroken :
    (done : Bool) (hs : Headers) (name value : Bytes)
    → UnbrokenHeader (name, value)
    → All UnbrokenHeader hs
    → All UnbrokenHeader (set_from done hs name value)
unfolding set_from
set_from-Unbroken true [] name value k h = tt
set_from-Unbroken false [] name value k h = (k, tt)
set_from-Unbroken true ((n, v) ∷ hs) name value k h = elim (Bool-cases (same_name n name)) [
  | inl e ↦ rw (e, set_from) (set_from-Unbroken true hs name value k h.1)
  | inr e ↦ rw (e, set_from) (h.0, set_from-Unbroken true hs name value k h.1)
]
set_from-Unbroken false ((n, v) ∷ hs) name value k h = elim (Bool-cases (same_name n name)) [
  | inl e ↦ rw (e, set_from) ((h.0.0, k.1), set_from-Unbroken true hs name value k h.1)
  | inr e ↦ rw (e, set_from) (h.0, set_from-Unbroken false hs name value k h.1)
]

fire-Unbroken :
    (a : Action) (name value : Bytes) (headers : Headers)
    → IsAccepted name value
    → All UnbrokenHeader headers
    → All UnbrokenHeader (fire a name value headers).0
unfolding fire
fire-Unbroken remove name value headers h k = remove_header-Unbroken headers (encode name) k
fire-Unbroken add name value headers h k =
    All-append UnbrokenHeader headers ((encode_latin name, encode_latin value) ∷ []) k (
      (
        rw (encode_latin_printable name h.printable) (printable-Unbroken name h.printable),
        value-Unbroken value h.unbroken,
      ),
      tt,
    )
fire-Unbroken set name value headers h k =
    unfold set_header in
    set_from-Unbroken false headers (encode name) (encode_latin value)
      (
        rw (encode_printable name h.printable) (printable-Unbroken name h.printable),
        value-Unbroken value h.unbroken,
      )
      k

apply_rule-Unbroken :
    (r : HeaderRule) (target : Side) (headers : Headers)
    → IsAccepted (strip_text r.name) r.value
    → All UnbrokenHeader headers
    → All UnbrokenHeader (apply_rule r target headers).0
unfolding apply_rule
apply_rule-Unbroken r target headers h k =
    elim (Bool-cases (not r.enabled || not (same_side r.target target))) [
      | inl off ↦ rw (off, apply_rule) k
      | inr on ↦ elim (Bool-cases (is_empty (strip_text r.name))) [
        | inl unnamed ↦ rw (on, unnamed, apply_rule) k
        | inr named ↦
            rw (on, named, apply_rule)
              (fire-Unbroken r.action (strip_text r.name) r.value headers h k)
      ]
    ]

-- Rules that `validate_header_rules` accepts inject no line break: if no header of the message holds
-- a CR or LF, none does after the rules are applied.
pub apply_header_rules-Unbroken :
    (rules : List HeaderRule) (target : Side) (headers : Headers)
    → validate_header_rules (raw_rules rules) ≡ ok tt
    → All UnbrokenHeader headers
    → All UnbrokenHeader (apply_header_rules rules target headers).0
unfolding apply_header_rules
apply_header_rules-Unbroken [] target headers h k = k
apply_header_rules-Unbroken (r ∷ rs) target headers h k =
    let (here, later) = validated r rs h in
    apply_header_rules-Unbroken rs target (apply_rule r target headers).0 later
      (apply_rule-Unbroken r target headers here k)
