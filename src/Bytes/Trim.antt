-- ===== src/Bytes/Trim.antt =====
-- Stripping, and texts with no whitespace at their ends or anywhere.
use brup_http_proxy.Prelude.{
  ℕ, ◌≡◌, ◌≢◌, refl, Bool, true, false, [], ◌∷◌, ◌++◌, arith, All, is_empty,
}
use brup_http_proxy.Bytes.{
  Bytes, is_space, is_space_text, strip_text, lstrip_by, rstrip_by, strip, words, chop_cr,
}
use brup_http_proxy.Bytes.Lines.{NoByte, split_by-append, split_by_none}

pub record IsTrimmed (s : Bytes) : Type 0 where
  pub lead : lstrip_by is_space s ≡ s
  pub trail : rstrip_by is_space s ≡ s

-- one word: not empty and without whitespace
pub record IsWord (s : Bytes) : Type 0 where
  pub filled : s ≢ []
  pub solid : All (λ x. is_space x ≡ false) s

pub strip_of_IsTrimmed : (s : Bytes) → IsTrimmed s → strip s ≡ s
unfolding strip
strip_of_IsTrimmed s h = rw (h.lead, h.trail)

pub strip-space : (s : Bytes) → IsTrimmed s → strip (32 ∷ s) ≡ s
unfolding strip
strip-space s h = rw (h.lead, h.trail)

chop_cr_of_trail : (s : Bytes) → rstrip_by is_space s ≡ s → chop_cr s ≡ s
unfolding rstrip_by is_space chop_cr
chop_cr_of_trail [] h = refl
chop_cr_of_trail (x ∷ []) h = ground arith
chop_cr_of_trail (x ∷ y ∷ s) h = ground (arith, chop_cr_of_trail (y ∷ s))

-- What stands before a trimmed text and a space does not change that its end is clean.
pub chop_cr-append_space : (a s : Bytes) → IsTrimmed s → chop_cr (a ++ 32 ∷ s) ≡ a ++ 32 ∷ s
unfolding chop_cr
chop_cr-append_space [] [] h = refl
chop_cr-append_space [] (x ∷ s) h = rw (chop_cr_of_trail (x ∷ s) h.trail)
chop_cr-append_space (c ∷ []) s h = rw (chop_cr-append_space [] s h)
chop_cr-append_space (c ∷ d ∷ a) s h = rw (chop_cr-append_space (d ∷ a) s h)

module _ (blank : ℕ → Bool) where
  rstrip_solid : (s : Bytes) → All (λ x. blank x ≡ false) s → rstrip_by blank s ≡ s
  unfolding rstrip_by
  rstrip_solid [] h = refl
  rstrip_solid (x ∷ s) h = ground (arith, rstrip_solid s h.1)

  lstrip_solid : (s : Bytes) → All (λ x. blank x ≡ false) s → lstrip_by blank s ≡ s
  unfolding lstrip_by
  lstrip_solid [] h = refl
  lstrip_solid (x ∷ s) h = ground arith

pub strip_solid :
    (blank : ℕ → Bool) (s : Bytes)
    → All (λ x. blank x ≡ false) s
    → rstrip_by blank (lstrip_by blank s) ≡ s
strip_solid blank s h = rw (lstrip_solid blank s h) (rstrip_solid blank s h)

pub strip_text_solid : (s : Bytes) → All (λ x. is_space_text x ≡ false) s → strip_text s ≡ s
unfolding strip_text
strip_text_solid s h = strip_solid is_space_text s h

pub IsTrimmed-of_IsWord : (s : Bytes) → IsWord s → IsTrimmed s
IsTrimmed-of_IsWord s h = record {
  lead = lstrip_solid is_space s h.solid;
  trail = rstrip_solid is_space s h.solid;
}

pub NoByte-of_solid :
    (c : ℕ) (s : Bytes) → is_space c ≡ true → All (λ x. is_space x ≡ false) s → NoByte c s
NoByte-of_solid c [] e h = tt
NoByte-of_solid c (x ∷ s) e h = (λ p. cc (p, e, h.0), NoByte-of_solid c s e h.1)

-- The words of a text that begins with a word and a space.
pub words-append : (a b : Bytes) → IsWord a → words (a ++ 32 ∷ b) ≡ a ∷ words b
unfolding words
words-append [] b h = absurd (h.filled refl)
words-append (x ∷ a) b h = rw (split_by-append is_space (x ∷ a) 32 b h.solid refl)

pub words_one : (a : Bytes) → IsWord a → words a ≡ a ∷ []
unfolding words
words_one [] h = absurd (h.filled refl)
words_one (x ∷ a) h = rw (split_by_none is_space (x ∷ a) h.solid)

pub strip-append_ne : (a b : Bytes) → IsWord a → is_empty (strip (a ++ b)) ≡ false
unfolding strip lstrip_by rstrip_by
strip-append_ne [] b h = absurd (h.filled refl)
strip-append_ne (x ∷ a) b h = ground (arith, h.solid)
