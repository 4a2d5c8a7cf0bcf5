-- ===== src/HttpMessage/Authority/RoundTrip.antt =====
-- Splitting an authority that `build_url` writes.
use brup_http_proxy.Prelude.{
  ℕ, ◌≤◌, ◌≡◌, ◌≢◌, refl, sym, ◌∙◌, ap, Bool, false, none, some, [], ◌∷◌, ◌++◌, arith, All, length,
  ◌==◌, append-nil, take-append, drop-append_add, All-append, Bool-cases, inl, inr, eq_of_==,
}
use brup_http_proxy.Bytes.{Bytes, codes, is_space_text, rpartition, starts_with, find}
use brup_http_proxy.Bytes.Lines.{NoByte}
use brup_http_proxy.Bytes.Trim.{strip_text_solid}
use brup_http_proxy.Bytes.Int.{ℤ, pos, decimal, max_str_digits}
use brup_http_proxy.Bytes.Int.RoundTrip.{
  IsDigit, decimal-IsDigit, int_of_text-decimal, decimal_solid_text,
}
use brup_http_proxy.Result.{ok}
use brup_http_proxy.HttpMessage.Authority.{
  split_bracketed, split_plain, split_authority, host_part, default_port,
}

-- a host name or IPv4 address: not empty, with no whitespace, colon or opening bracket
pub record IsHost (h : Bytes) : Type 0 where
  pub filled : h ≢ []
  pub solid : All (λ c. is_space_text c ≡ false) h
  pub no_colon : NoByte b':' h
  pub no_bracket : NoByte b'[' h

NoByte-digits : (s : Bytes) → All IsDigit s → NoByte b':' s
NoByte-digits [] h = tt
NoByte-digits (x ∷ s) h = (omega arith, NoByte-digits s h.1)

rpartition-none : (c : ℕ) (s : Bytes) → NoByte c s → rpartition c s ≡ none
unfolding rpartition
rpartition-none c [] h = refl
rpartition-none c (x ∷ s) h = ground (arith, rpartition-none c s h.1)

rpartition-append : (c : ℕ) (a b : Bytes) → NoByte c b → rpartition c (a ++ c ∷ b) ≡ some (a, b)
unfolding rpartition
rpartition-append c [] b h = ground (arith, rpartition-none c b h)
rpartition-append c (x ∷ a) b h = ground (arith, rpartition-append c a b h)

starts_with_bracket : (h rest : Bytes) → IsHost h → starts_with (codes "[") (h ++ rest) ≡ false
unfolding starts_with
starts_with_bracket [] rest k = absurd (k.filled refl)
starts_with_bracket (x ∷ h) rest k = ground (arith, k.no_bracket)

split_host : (h : Bytes) (z : ℤ) → IsHost h → split_authority h z ≡ ok (h, z)
unfolding split_authority split_plain
split_host h z k =
    rw
      (
        strip_text_solid h k.solid,
        sym (ap (λ s. starts_with (codes "[") s) (append-nil h)) ∙ starts_with_bracket h [] k,
        split_authority,
      )
      (rw (rpartition-none b':' h k.no_colon, split_plain))

split_host_port :
    (h : Bytes) (p : ℕ) (z : ℤ)
    → IsHost h
    → length (decimal p) ≤ max_str_digits
    → split_authority (h ++ (b':' ∷ decimal p)) z ≡ ok (h, pos p)
unfolding split_authority split_plain
split_host_port h p z k fits =
    rw
      (
        strip_text_solid (h ++ (b':' ∷ decimal p)) (
            All-append _ h (b':' ∷ decimal p) k.solid
              (unfold is_space_text in refl, decimal_solid_text p)),
        starts_with_bracket h (b':' ∷ decimal p) k,
        split_authority,
      )
      (rw
        (
          rpartition-append b':' h (decimal p) (NoByte-digits (decimal p) (decimal-IsDigit p)),
          split_plain,
        )
        (rw (int_of_text-decimal p fits, split_plain)))

-- The authority that `build_url` writes for a host and a port is split into the same host and port,
-- whether the port is written or left out as the scheme's default. The conditions: the host is not
-- empty and has no whitespace, colon or `[`, and the port has at most `max_str_digits` digits.
pub split_authority-host_part :
    (tls : Bool) (h : Bytes) (p : ℕ)
    → IsHost h
    → length (decimal p) ≤ max_str_digits
    → split_authority (host_part tls h (pos p)) (pos (default_port tls)) ≡ ok (h, pos p)
unfolding host_part
split_authority-host_part tls h p k fits = elim (Bool-cases (p == default_port tls)) [
  | inl same ↦
      rw (same, host_part)
        (split_host h (pos (default_port tls)) k
          ∙ ap (λ n. ok (h, pos n)) (sym (eq_of_== p (default_port tls) same)))
  | inr other ↦ rw (other, host_part) (split_host_port h p (pos (default_port tls)) k fits)
]

find-bracket :
    (s rest : Bytes) → NoByte b']' s → find (codes "]") (s ++ (b']' ∷ rest)) ≡ some (length s)
unfolding find
find-bracket [] rest h = refl
find-bracket (x ∷ s) rest h = ground (arith, find-bracket s rest h.1)

-- A bracketed address with a port is split into the address without its brackets and the port. The
-- conditions: the address has no whitespace and no `]`, and the port has at most `max_str_digits`
-- digits.
pub split_authority_bracketed :
    (h : Bytes) (p : ℕ) (z : ℤ)
    → All (λ c. is_space_text c ≡ false) h
    → NoByte b']' h
    → length (decimal p) ≤ max_str_digits
    → split_authority (b'[' ∷ (h ++ (codes "]:" ++ decimal p))) z ≡ ok (h, pos p)
unfolding split_authority
split_authority_bracketed h p z solid no_end fits =
    rw
      (strip_text_solid (b'[' ∷ (h ++ (codes "]:" ++ decimal p))) (
        unfold is_space_text in refl,
        All-append _ h (codes "]:" ++ decimal p) solid
            (unfold is_space_text in refl, (unfold is_space_text in refl, decimal_solid_text p)),
      ))
      (unfold starts_with split_bracketed in
        rw (find-bracket (b'[' ∷ h) (b':' ∷ decimal p) (omega arith, no_end), split_bracketed)
          (rw
            (
              take-append h (b']' ∷ (b':' ∷ decimal p)),
              drop-append_add (b'[' ∷ h) (b']' ∷ (b':' ∷ decimal p)) 1,
            )
            (rw (int_of_text-decimal p fits))))
