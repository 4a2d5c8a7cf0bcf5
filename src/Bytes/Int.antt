-- ===== src/Bytes/Int.antt =====
-- Python integers, `int(text)` and `str(number)`.
pub mod RoundTrip
use brup_http_proxy.Prelude.{
  ℕ, zero, suc, ◌+◌, ◌-◌, ◌*◌, ◌/◌, ◌%◌, Bool, true, false, ◌&&◌, ◌||◌, Option, none, some, List,
  [], ◌∷◌, ◌++◌, ltb, leb, ◌==◌, if◌then◌else◌,
}
use brup_http_proxy.Bytes.{Bytes, is_space, strip, lstrip_by, rstrip_by}

-- `negsuc n` is -(n + 1).
pub data ℤ : Type 0 where
  pos : ℕ → ℤ
  negsuc : ℕ → ℤ

abbrev pub negate : ℕ → ℤ
negate zero = pos 0
negate (suc n) = negsuc n

-- the value of a digit or a letter, whatever the base
unfoldable pub digit_value : ℕ → Option ℕ
digit_value c =
    if leb 48 c && leb c 57
    then some (c - 48)
    else if leb 97 c && leb c 122
    then some (c - 87)
    else if leb 65 c && leb c 90
    then some (c - 55)
    else none

unfoldable pub digit : ℕ → ℕ → Option ℕ
unfolding digit_value
digit base c = elim (digit_value c) [ none ↦ none | some d ↦ if ltb d base then some d else none ]

-- Digits with single underscores between them: the value and the number of digits.
-- `after` says whether the last character was a digit.
unfoldable pub scan : ℕ → Bool → ℕ → ℕ → Bytes → Option (ℕ × ℕ)
unfolding digit
scan base after n count [] = if after then some (n, count) else none
scan base after n count (c ∷ s) =
    let skipped = scan base false n count s in
    let more = λ (d : ℕ). scan base true (n * base + d) (count + 1) s in
    elim (c == 95) [
      | true ↦ if after then skipped else none
      | false ↦ elim (digit base c) [ none ↦ none | some d ↦ more d ]
    ]

-- `sys.int_info.default_max_str_digits`, which bounds decimal texts only
abbrev pub max_str_digits : ℕ
max_str_digits = 4300

abbrev within_digits : ℕ → ℕ × ℕ → Option ℕ
within_digits base (n, count) = if base == 10 && ltb max_str_digits count then none else some n

-- an optional `0x`, after which one underscore may stand
unfoldable pub drop_prefix : ℕ → Bytes → Bytes
drop_prefix base (z ∷ x ∷ c ∷ s) =
    if base == 16 && (z == 48 && (x == 120 || x == 88))
    then (if c == 95 then s else c ∷ s)
    else z ∷ x ∷ c ∷ s
drop_prefix base s = s

unfoldable pub unsigned : ℕ → Bytes → Option ℕ
unfolding scan drop_prefix
unsigned base s = elim (scan base false 0 0 (drop_prefix base s)) [
  | none ↦ none
  | some r ↦ within_digits base r
]

unfoldable pub signed : ℕ → Bytes → Option ℤ
unfolding unsigned
signed base [] = none
signed base (c ∷ s) =
    if c == 45
    then elim (unsigned base s) [ none ↦ none | some n ↦ some (negate n) ]
    else elim (unsigned base (if c == 43 then s else c ∷ s)) [ none ↦ none | some n ↦ some (pos n) ]

-- `int(s, base)` of bytes, with `none` for ValueError
unfoldable pub int_of : ℕ → Bytes → Option ℤ
unfolding signed
int_of base s = signed base (strip s)

-- What `int` of a `str` strips: the blanks of ASCII without the separators 28 to 31, and the next line and
-- the no-break space.
unfoldable pub is_int_space : ℕ → Bool
unfolding is_space
is_int_space c = is_space c || (c == 133 || c == 160)

-- `int(s)` of a `str` below code point 256
unfoldable pub int_of_text : Bytes → Option ℤ
unfolding signed lstrip_by rstrip_by is_int_space
int_of_text s = signed 10 (rstrip_by is_int_space (lstrip_by is_int_space s))

-- The decimal digits of `n`; more fuel than `n` is enough.
decimal_from : ℕ → ℕ → Bytes
decimal_from zero n = []
decimal_from (suc fuel) n =
    let rest = decimal_from fuel (n / 10) in
    elim (ltb n 10) [ true ↦ (48 + n) ∷ [] | false ↦ rest ++ (48 + n % 10) ∷ [] ]

-- `str(n).encode()`
unfoldable pub decimal : ℕ → Bytes
unfolding decimal_from
decimal n = decimal_from (suc n) n

-- `str(z).encode()`
unfoldable pub decimal_ℤ : ℤ → Bytes
unfolding decimal
decimal_ℤ (pos n) = decimal n
decimal_ℤ (negsuc n) = 45 ∷ decimal (n + 1)
