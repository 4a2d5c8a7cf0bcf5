-- ===== src/Intruder/Template.antt =====
-- `parse_positions`, `build_request`, `fix_content_length` and `url_encode_unsafe` of
-- backend/brup/intruder.py.
pub mod Positions
pub mod Length
use brup_http_proxy.Prelude.{
  ℕ, zero, suc, ◌+◌, ◌/◌, ◌%◌, Bool, true, false, not, ◌&&◌, ◌||◌, Option, none, some, List, [],
  ◌∷◌, ◌++◌, ◌==◌, leb, ltb, if◌then◌else◌, is_empty, take, drop, length,
}
use brup_http_proxy.Bytes.{
  Bytes, codes, crlf, blank_line, find, split_on, push_part, join, lower, starts_with,
}
use brup_http_proxy.Bytes.Int.{decimal}
use brup_http_proxy.Result.{Result, ok, err, template_error, index_error, ◌>>=◌}

abbrev pub marker : ℕ
marker = 0xa7

-- `parts[0::2]` and `parts[1::2]`
unfoldable pub evens : List Bytes → List Bytes
evens [] = []
evens (p ∷ []) = p ∷ []
evens (p ∷ q ∷ ps) = p ∷ evens ps

unfoldable pub odds : List Bytes → List Bytes
odds [] = []
odds (p ∷ []) = []
odds (p ∷ q ∷ ps) = q ∷ odds ps

unfoldable pub parse_positions : Bytes → Result (List Bytes × List Bytes)
unfolding split_on evens odds
parse_positions template =
    let parts = split_on marker template in
    if length parts % 2 == 0 then err template_error else ok (evens parts, odds parts)

-- The loop over the values, after the literal `chunk`; `literals` are those that follow it.
unfoldable pub build_from : Bytes → List Bytes → List Bytes → Result Bytes
build_from chunk literals [] = ok chunk
build_from chunk [] (v ∷ values) = err index_error
build_from chunk (l ∷ literals) (v ∷ values) = do
  rest ← build_from l literals values
  ok (chunk ++ (v ++ rest))

unfoldable pub build_request : List Bytes → List Bytes → Result Bytes
unfolding build_from
build_request [] values = err index_error
build_request (l ∷ literals) values = build_from l literals values

-- `head.split(b"\r\n")`
unfoldable pub split_crlf : Bytes → List Bytes
split_crlf [] = [] ∷ []
split_crlf (x ∷ []) = (x ∷ []) ∷ []
split_crlf (x ∷ y ∷ s) =
    let after = split_crlf s in
    let next = split_crlf (y ∷ s) in
    elim (x == 13 && y == 10) [ true ↦ [] ∷ after | false ↦ push_part x next ]

unfoldable pub is_length_line : Bytes → Bool
unfolding starts_with lower
is_length_line line = starts_with (codes "content-length:") (lower line)

unfoldable pub length_line : Bytes → Bytes
length_line body = codes "Content-Length: " ++ decimal (length body)

-- the loop over the lines, and the line that is added behind them
unfoldable pub fix_lines : Bool → Bytes → List Bytes → List Bytes
fix_lines found body [] = if not found && not (is_empty body) then length_line body ∷ [] else []
fix_lines found body (line ∷ lines) =
    let after = fix_lines true body lines in
    let other = fix_lines found body lines in
    elim (is_length_line line) [
      | true ↦ if found then after else length_line body ∷ after
      | false ↦ line ∷ other
    ]

unfoldable pub fix_content_length : Bytes → Bytes
unfolding find split_crlf fix_lines join
fix_content_length raw = elim (find blank_line raw) [
  | none ↦ raw
  | some sep ↦
      let head = take sep raw in
      let body = drop (sep + 4) raw in
      join crlf (fix_lines false body (split_crlf head)) ++ (blank_line ++ body)
]

-- `b in UNRESERVED`
unfoldable pub is_unreserved : ℕ → Bool
is_unreserved b =
    ((leb 48 b && leb b 57) || ((leb 65 b && leb b 90) || (leb 97 b && leb b 122)))
    || ((b == 45 || b == 95) || (b == 46 || b == 126))

-- an uppercase hexadecimal digit
unfoldable pub hex_digit : ℕ → ℕ
hex_digit d = if ltb d 10 then 48 + d else 55 + d

unfoldable pub encode_byte : ℕ → Bytes
unfolding is_unreserved hex_digit
encode_byte b =
    if is_unreserved b then b ∷ [] else b'%' ∷ hex_digit (b / 16) ∷ hex_digit (b % 16) ∷ []

unfoldable pub url_encode_unsafe : Bytes → Bytes
unfolding encode_byte
url_encode_unsafe [] = []
url_encode_unsafe (b ∷ value) = encode_byte b ++ url_encode_unsafe value
