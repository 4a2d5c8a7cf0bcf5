-- ===== src/Bytes.antt =====
-- Byte strings and the `bytes` methods that the program uses. A byte is a number, and a literal is
-- written as ASCII text.
pub mod Laws
pub mod Lines
pub mod Trim
pub mod Int
use Prim.Native.String
use brup_http_proxy.Prelude.{
  ℕ, zero, suc, ◌+◌, ◌-◌, ◌*◌, ◌/◌, ◌%◌, code, String, Bool, true, false, not, ◌&&◌, ◌||◌, Option,
  none, some, List, [], ◌∷◌, ◌++◌, map, ltb, leb, ◌==◌, if◌then◌else◌, is_empty, keep, drop, length,
}

abbrev pub Bytes : Type 0
Bytes = List ℕ

-- `b"..."` of an ASCII text
abbrev pub codes : String → Bytes
codes String.[] = []
codes (String.◌∷◌ c s) = code c ∷ codes s

abbrev pub crlf : Bytes
crlf = 13 ∷ 10 ∷ []

abbrev pub blank_line : Bytes
blank_line = 13 ∷ 10 ∷ 13 ∷ 10 ∷ []

-- `a == b`
unfoldable pub bytes_eq : Bytes → Bytes → Bool
bytes_eq [] [] = true
bytes_eq [] (y ∷ t) = false
bytes_eq (x ∷ s) [] = false
bytes_eq (x ∷ s) (y ∷ t) = x == y && bytes_eq s t

-- `s.startswith(p)`
unfoldable pub starts_with : Bytes → Bytes → Bool
starts_with [] s = true
starts_with (x ∷ p) [] = false
starts_with (x ∷ p) (y ∷ s) = x == y && starts_with p s

-- `s.find(p)`, with `none` for -1
unfoldable pub find : Bytes → Bytes → Option ℕ
unfolding starts_with
find p [] = if is_empty p then some 0 else none
find p (y ∷ s) =
    let rest = find p s in
    elim (starts_with p (y ∷ s)) [
      | true ↦ some 0
      | false ↦ elim rest [ none ↦ none | some i ↦ some (suc i) ]
    ]

-- `p in s`
unfoldable pub contains : Bytes → Bytes → Bool
unfolding find
contains p s = elim (find p s) [ none ↦ false | some i ↦ true ]

-- `s.lower()` and `s.upper()`, which change ASCII letters only
unfoldable pub lower_byte : ℕ → ℕ
lower_byte c = if leb 65 c && leb c 90 then c + 32 else c

unfoldable pub lower : Bytes → Bytes
unfolding lower_byte
lower = map lower_byte

unfoldable pub upper_byte : ℕ → ℕ
upper_byte c = if leb 97 c && leb c 122 then c - 32 else c

unfoldable pub upper : Bytes → Bytes
unfolding upper_byte
upper = map upper_byte

-- ASCII whitespace: space, \t, \n, \v, \f, \r
unfoldable pub is_space : ℕ → Bool
is_space c = c == 32 || (leb 9 c && leb c 13)

abbrev pub push_part : ℕ → List Bytes → List Bytes
push_part x [] = (x ∷ []) ∷ []
push_part x (p ∷ ps) = (x ∷ p) ∷ ps

-- cuts before and after each byte that `sep` accepts
unfoldable pub split_by : (ℕ → Bool) → Bytes → List Bytes
split_by sep [] = [] ∷ []
split_by sep (x ∷ s) =
    let rest = split_by sep s in elim (sep x) [ true ↦ [] ∷ rest | false ↦ push_part x rest ]

-- `s.split(sep)` with a separator of one byte
unfoldable pub split_on : ℕ → Bytes → List Bytes
unfolding split_by
split_on c = split_by (λ x. x == c)

-- `s.split(sep, 1)`: the text before the first separator, and the text after it if there is one
unfoldable pub split_once : Bytes → Bytes → Bytes × Option Bytes
unfolding starts_with
split_once sep [] = ([], none)
split_once sep (x ∷ s) =
    let rest = split_once sep s in
    elim (starts_with sep (x ∷ s)) [
      | true ↦ ([], some (drop (length sep) (x ∷ s)))
      | false ↦ (x ∷ rest.0, rest.1)
    ]

-- `s.split()`: the maximal runs without whitespace
unfoldable pub words : Bytes → List Bytes
unfolding split_by is_space
words s = keep (λ w. not (is_empty w)) (split_by is_space s)

-- `sep.join(parts)`
unfoldable pub join : Bytes → List Bytes → Bytes
join sep [] = []
join sep (p ∷ []) = p
join sep (p ∷ q ∷ ps) = p ++ (sep ++ join sep (q ∷ ps))

unfoldable pub lstrip_by : (ℕ → Bool) → Bytes → Bytes
lstrip_by blank [] = []
lstrip_by blank (x ∷ s) =
    let rest = lstrip_by blank s in elim (blank x) [ true ↦ rest | false ↦ x ∷ s ]

unfoldable pub rstrip_by : (ℕ → Bool) → Bytes → Bytes
rstrip_by blank [] = []
rstrip_by blank (x ∷ s) =
    let rest = rstrip_by blank s in if blank x && is_empty rest then [] else x ∷ rest

-- `s.strip()`
unfoldable pub strip : Bytes → Bytes
unfolding lstrip_by rstrip_by is_space
strip s = rstrip_by is_space (lstrip_by is_space s)

-- `s.strip()` of a `str`, a list of code points: Unicode whitespace
unfoldable pub is_space_text : ℕ → Bool
unfolding is_space
is_space_text c =
    (is_space c || (leb 28 c && leb c 31))
    || ((c == 0x85 || c == 0xa0)
        || ((c == 0x1680 || (leb 0x2000 c && leb c 0x200a))
            || ((c == 0x2028 || c == 0x2029) || (c == 0x202f || (c == 0x205f || c == 0x3000)))))

unfoldable pub strip_text : Bytes → Bytes
unfolding lstrip_by rstrip_by is_space_text
strip_text s = rstrip_by is_space_text (lstrip_by is_space_text s)

-- the longest prefix without whitespace, and the rest
unfoldable pub take_word : Bytes → Bytes
unfolding is_space
take_word [] = []
take_word (x ∷ s) = let rest = take_word s in if is_space x then [] else x ∷ rest

unfoldable pub drop_word : Bytes → Bytes
unfolding is_space
drop_word [] = []
drop_word (x ∷ s) = let rest = drop_word s in elim (is_space x) [ true ↦ x ∷ s | false ↦ rest ]

-- `s.split(None, n)`: after `n` words the remainder is kept with its trailing whitespace
unfoldable pub split_max : ℕ → Bytes → List Bytes
unfolding lstrip_by take_word drop_word
split_max zero s = let t = lstrip_by is_space s in if is_empty t then [] else t ∷ []
split_max (suc n) s =
    let t = lstrip_by is_space s in
    let rest = split_max n (drop_word t) in if is_empty t then [] else take_word t ∷ rest

-- `s[:-1] if s.endswith(b"\r") else s`
unfoldable pub chop_cr : Bytes → Bytes
chop_cr [] = []
chop_cr (x ∷ []) = if x == 13 then [] else x ∷ []
chop_cr (x ∷ y ∷ s) = x ∷ chop_cr (y ∷ s)

-- `s.rpartition(c)`: what stands before and after the last `c`, or `none` without one
unfoldable pub rpartition : ℕ → Bytes → Option (Bytes × Bytes)
rpartition c [] = none
rpartition c (x ∷ s) = elim (rpartition c s) [
  | some (a, b) ↦ some (x ∷ a, b)
  | none ↦ if x == c then some ([], s) else none
]

-- `s.encode("latin-1", "replace")`
unfoldable pub encode_latin : Bytes → Bytes
encode_latin = map (λ c. if ltb c 256 then c else 63)

-- `s.encode()`, in UTF-8, of code points that are no surrogates
unfoldable pub utf8 : ℕ → Bytes
utf8 c =
    if ltb c 128
    then c ∷ []
    else if ltb c 2048
    then (192 + c / 64) ∷ (128 + c % 64) ∷ []
    else if ltb c 65536
    then (224 + c / 4096) ∷ (128 + c / 64 % 64) ∷ (128 + c % 64) ∷ []
    else (240 + c / 262144) ∷ (128 + c / 4096 % 64) ∷ (128 + c / 64 % 64) ∷ (128 + c % 64) ∷ []

unfoldable pub encode : Bytes → Bytes
unfolding utf8
encode [] = []
encode (c ∷ s) = utf8 c ++ encode s
