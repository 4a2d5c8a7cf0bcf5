-- ===== src/Intruder/Template/Length.antt =====
-- What `fix_content_length` does to the lines of a head.
use brup_http_proxy.Prelude.{
  ◌≡◌, refl, Bool, true, false, not, ◌||◌, List, [], ◌∷◌, arith, keep, any, is_empty, if◌then◌else◌,
}
use brup_http_proxy.Bytes.{Bytes, starts_with}
use brup_http_proxy.Intruder.Template.{is_length_line, length_line, fix_lines}

length_line-is_length_line : (body : Bytes) → is_length_line (length_line body) ≡ true
unfolding is_length_line length_line starts_with
length_line-is_length_line body = refl

module _ (body : Bytes) where
  others_from :
      (found : Bool) (lines : List Bytes)
      → keep (λ l. not (is_length_line l)) (fix_lines found body lines)
        ≡ keep (λ l. not (is_length_line l)) lines
  unfolding fix_lines
  others_from found [] = ground (arith, length_line-is_length_line body)
  others_from found (l ∷ ls) =
      ground (arith, length_line-is_length_line body, others_from true ls, others_from found ls)

  lengths_seen : (lines : List Bytes) → keep is_length_line (fix_lines true body lines) ≡ []
  unfolding fix_lines
  lengths_seen [] = refl
  lengths_seen (l ∷ ls) = ground (arith, lengths_seen ls)

  -- The fixed head has exactly one Content-Length line, with the length of the body, if it had one or
  -- the body is not empty, and none otherwise.
  pub length_lines-fix_lines :
      (lines : List Bytes)
      → keep is_length_line (fix_lines false body lines)
        ≡ (if any is_length_line lines || not (is_empty body) then length_line body ∷ [] else [])
  unfolding fix_lines
  length_lines-fix_lines [] = ground (arith, length_line-is_length_line body)
  length_lines-fix_lines (l ∷ ls) =
      ground (arith, length_line-is_length_line body, lengths_seen ls, length_lines-fix_lines ls)

  -- All other lines of the head stay as they are, in their order.
  pub other_lines-fix_lines :
      (lines : List Bytes)
      → keep (λ l. not (is_length_line l)) (fix_lines false body lines)
        ≡ keep (λ l. not (is_length_line l)) lines
  other_lines-fix_lines = others_from false
