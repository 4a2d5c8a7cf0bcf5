-- ===== src/HttpMessage/Authority.antt =====
-- `split_authority` and `build_url` of backend/brup/http_message.py. A text is its list of code points;
-- bytes decoded as Latin-1 are their own code points.
pub mod RoundTrip
use brup_http_proxy.Prelude.{
  ℕ, ◌+◌, ◌-◌, Bool, true, false, not, ◌||◌, Option, none, some, List, [], ◌∷◌, ◌++◌, ◌==◌,
  if◌then◌else◌, take, drop, length,
}
use brup_http_proxy.Bytes.{Bytes, codes, starts_with, find, contains, strip_text, rpartition, lower}
use brup_http_proxy.Bytes.Int.{ℤ, pos, int_of_text, decimal_ℤ}
use brup_http_proxy.Result.{Result, ok, err, value_error}

-- `host, port` with `int(text)` for the port
abbrev pub with_port : Bytes → Option ℤ → Result (Bytes × ℤ)
with_port host none = err value_error
with_port host (some port) = ok (host, port)

-- A text that begins with `[`. Without a `]`, `find` gives -1: the host is then `text[1:-1]`, and the
-- rest is all of the text.
unfoldable pub split_bracketed : Bytes → ℤ → Result (Bytes × ℤ)
unfolding find starts_with int_of_text
split_bracketed text default_port = elim (find (codes "]") text) [
  | none ↦ ok (drop 1 (take (length text - 1) text), default_port)
  | some end ↦
      let host = drop 1 (take end text) in
      let rest = drop (end + 1) text in
      if starts_with (codes ":") rest
      then with_port host (int_of_text (drop 1 rest))
      else ok (host, default_port)
]

unfoldable pub split_plain : Bytes → ℤ → Bytes × ℤ
unfolding rpartition int_of_text
split_plain text default_port = elim (rpartition b':' text) [
  | none ↦ (text, default_port)
  | some (host, port) ↦ elim (int_of_text port) [ none ↦ (text, default_port) | some n ↦ (host, n) ]
]

unfoldable pub split_authority : Bytes → ℤ → Result (Bytes × ℤ)
unfolding strip_text starts_with split_bracketed split_plain
split_authority authority default_port =
    let text = strip_text authority in
    if starts_with (codes "[") text
    then split_bracketed text default_port
    else ok (split_plain text default_port)

abbrev pub same_ℤ : ℤ → ℕ → Bool
same_ℤ (pos n) m = n == m
same_ℤ z m = false

abbrev pub default_port : Bool → ℕ
default_port tls = if tls then 443 else 80

-- `host if port == default else f"{host}:{port}"`
unfoldable pub host_part : Bool → Bytes → ℤ → Bytes
unfolding decimal_ℤ
host_part tls host port =
    if same_ℤ port (default_port tls) then host else host ++ (codes ":" ++ decimal_ℤ port)

unfoldable pub build_url : Bool → Bytes → ℤ → Bytes → Bytes
unfolding starts_with lower host_part
build_url tls host port path =
    let low = lower path in
    let scheme = if tls then codes "https" else codes "http" in
    let rooted = if starts_with (codes "/") path then path else b'/' ∷ path in
    if starts_with (codes "http://") low || starts_with (codes "https://") low
    then path
    else scheme ++ (codes "://" ++ (host_part tls host port ++ rooted))
