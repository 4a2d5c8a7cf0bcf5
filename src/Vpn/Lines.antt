-- ===== src/Vpn/Lines.antt =====
-- `str.splitlines()` and `str.partition`, of texts as lists of code points.
use brup_http_proxy.Prelude.{
  ℕ, Bool, true, false, ◌||◌, ◌&&◌, List, [], ◌∷◌, leb, ◌==◌, if◌then◌else◌,
}
use brup_http_proxy.Bytes.{Bytes, push_part}

unfoldable pub is_line_end : ℕ → Bool
is_line_end c =
    (leb 10 c && leb c 13)
    || ((leb 28 c && leb c 30) || (c == 0x85 || (c == 0x2028 || c == 0x2029)))

-- A line end closes the line before it, and \r\n is one line end.
unfoldable pub splitlines : Bytes → List Bytes
unfolding is_line_end
splitlines [] = []
splitlines (x ∷ []) = if is_line_end x then [] ∷ [] else (x ∷ []) ∷ []
splitlines (x ∷ y ∷ s) =
    let after = splitlines s in
    let next = splitlines (y ∷ s) in
    elim (x == 13 && y == 10) [
      | true ↦ [] ∷ after
      | false ↦ if is_line_end x then [] ∷ next else push_part x next
    ]

-- `s.partition(c)`: what stands before the first `c` and behind it, with "" where there is none
unfoldable pub partition : ℕ → Bytes → Bytes × Bytes
partition c [] = ([], [])
partition c (x ∷ s) =
    let rest = partition c s in elim (x == c) [ true ↦ ([], s) | false ↦ (x ∷ rest.0, rest.1) ]
