-- ===== src/Bytes/Lines.antt =====
-- Lines joined by CRLF: where the blank line is found, and how the lines are cut again.
use brup_http_proxy.Prelude.{
  ℕ, ◌+◌, ◌≡◌, ◌≢◌, refl, Bool, true, false, Option, none, some, List, [], ◌∷◌, ◌++◌, map, arith,
  All, length, ◌==◌, append_assoc, length-append, ==_ne, All-append,
}
use mathlib.Core.Path.{ap₂}
use brup_http_proxy.Bytes.{
  Bytes, crlf, blank_line, starts_with, find, join, split_by, split_on, chop_cr,
}

abbrev pub shift : ℕ → Option ℕ → Option ℕ
shift k none = none
shift k (some i) = some (k + i)

abbrev pub NoByte : ℕ → Bytes → Type 0
NoByte c s = All (λ x. x ≢ c) s

-- The search passes over a line and its end, if no blank line follows at once.
pub find-line :
    (l rest : Bytes)
    → NoByte 10 l
    → starts_with crlf rest ≡ false
    → find blank_line (l ++ (13 ∷ 10 ∷ rest)) ≡ shift (length l + 2) (find blank_line rest)
unfolding find
find-line [] rest h k = ground arith
find-line (x ∷ []) rest h k = ground (arith, find-line [] rest)
find-line (x ∷ y ∷ l) rest h k = ground (arith, find-line (y ∷ l) rest)

pub find-last_line :
    (l body : Bytes)
    → NoByte 10 l
    → find blank_line (l ++ (13 ∷ 10 ∷ 13 ∷ 10 ∷ body)) ≡ some (length l)
unfolding find
find-last_line [] body h = ground arith
find-last_line (x ∷ []) body h = ground (arith, find-last_line [] body)
find-last_line (x ∷ y ∷ l) body h = ground (arith, find-last_line (y ∷ l) body)

-- a line of a head: not empty and with no LF
pub record IsLine (l : Bytes) : Type 0 where
  pub no_lf : NoByte 10 l
  pub filled : l ≢ []

starts_with_line : (l rest : Bytes) → IsLine l → starts_with crlf (l ++ (13 ∷ rest)) ≡ false
unfolding starts_with
starts_with_line [] rest h = absurd (h.filled refl)
starts_with_line (x ∷ []) rest h = ground arith
starts_with_line (x ∷ y ∷ l) rest h = ground (arith, h.no_lf)

-- In CRLF-joined lines the first blank line is the one behind them.
pub find-join :
    (l : Bytes) (ls : List Bytes) (body : Bytes)
    → All IsLine (l ∷ ls)
    → find blank_line (join crlf (l ∷ ls) ++ (blank_line ++ body))
      ≡ some (length (join crlf (l ∷ ls)))
unfolding join
find-join l [] body h = find-last_line l body h.0.no_lf
find-join l (m ∷ ls) body h =
    rw (append_assoc l (crlf ++ join crlf (m ∷ ls)) (blank_line ++ body)) (
      rw (find-line l (join crlf (m ∷ ls) ++ (blank_line ++ body)) h.0.no_lf (starts_join m ls h.1))
        (rw (find-join m ls body h.1, length-append l (crlf ++ join crlf (m ∷ ls))) (ground arith)))
  where
    starts_join :
        (k : Bytes) (ks : List Bytes)
        → All IsLine (k ∷ ks)
        → starts_with crlf (join crlf (k ∷ ks) ++ (blank_line ++ body)) ≡ false
    starts_join k [] g = starts_with_line k (10 ∷ 13 ∷ 10 ∷ body) g.0
    starts_join k (j ∷ ks) g = rw append_assoc (starts_with_line k _ g.0)

pub split_by-append :
    (sep : ℕ → Bool) (a : Bytes) (c : ℕ) (b : Bytes)
    → All (λ x. sep x ≡ false) a
    → sep c ≡ true
    → split_by sep (a ++ c ∷ b) ≡ a ∷ split_by sep b
unfolding split_by
split_by-append sep [] c b h e = rw e
split_by-append sep (x ∷ a) c b h e = rw (h.0, split_by-append sep a c b h.1 e)

pub split_by_none :
    (sep : ℕ → Bool) (a : Bytes) → All (λ x. sep x ≡ false) a → split_by sep a ≡ a ∷ []
unfolding split_by
split_by_none sep [] h = refl
split_by_none sep (x ∷ a) h = ground (arith, split_by_none sep a h.1)

NoByte-eq : (c : ℕ) (s : Bytes) → NoByte c s → All (λ x. (x == c) ≡ false) s
NoByte-eq c [] h = tt
NoByte-eq c (x ∷ s) h = (==_ne x c h.0, NoByte-eq c s h.1)

chop_cr-append : (l : Bytes) → chop_cr (l ++ 13 ∷ []) ≡ l
unfolding chop_cr
chop_cr-append [] = refl
chop_cr-append (x ∷ []) = refl
chop_cr-append (x ∷ y ∷ l) = rw (chop_cr-append (y ∷ l))

-- the last line does not end in a CR of its own
abbrev pub EndsClean : List Bytes → Type 0
EndsClean [] = Unit
EndsClean (l ∷ []) = chop_cr l ≡ l
EndsClean (l ∷ m ∷ ls) = EndsClean (m ∷ ls)

-- Cutting CRLF-joined lines gives the lines back.
pub split_on-join :
    (l : Bytes) (ls : List Bytes)
    → All (NoByte 10) (l ∷ ls)
    → EndsClean (l ∷ ls)
    → map chop_cr (split_on 10 (join crlf (l ∷ ls))) ≡ l ∷ ls
unfolding join split_on
split_on-join l [] h e = rw (split_by_none (λ x. x == 10) l (NoByte-eq 10 l h.0), e)
split_on-join l (m ∷ ls) h e = rw (← append_assoc l (13 ∷ []) (10 ∷ join crlf (m ∷ ls))) (
    rw
      (split_by-append (λ x. x == 10) (l ++ 13 ∷ []) 10 (join crlf (m ∷ ls))
        (NoByte-eq 10 (l ++ 13 ∷ []) (All-append _ l (13 ∷ []) h.0 (omega arith, tt))) refl)
      (ap₂ (λ x xs. x ∷ xs) (chop_cr-append l) (split_on-join m ls h.1 e)))
