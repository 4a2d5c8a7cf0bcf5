-- ===== src/Http2/Fields/Laws.antt =====
-- `strip_for_h2` leaves only fields that HTTP/2 allows.
use mathlib.Core.Path.{ap₂}
use brup_http_proxy.Prelude.{
  ℕ, ◌≡◌, ◌⊎◌, inl, inr, refl, ap, true, false, [], ◌∷◌, arith, All, Bool-cases, ◌==◌,
}
use brup_http_proxy.Bytes.{Bytes, lower, lower_byte}
use brup_http_proxy.HttpMessage.Headers.{Header, Headers}
use brup_http_proxy.Http2.Fields.{one_of, connection_specific, is_pseudo, strip_for_h2}

lower_byte_idem : (c : ℕ) → lower_byte (lower_byte c) ≡ lower_byte c
unfolding lower_byte
lower_byte_idem c = ground arith

pub lower_idem : (s : Bytes) → lower (lower s) ≡ lower s
unfolding lower
lower_idem [] = refl
lower_idem (c ∷ s) = ap₂ (λ x xs. x ∷ xs) (lower_byte_idem c) (lower_idem s)

colon-lower_byte : (c : ℕ) → (58 == lower_byte c) ≡ (58 == c)
unfolding lower_byte
colon-lower_byte c = ground arith

pub is_pseudo-lower : (n v : Bytes) → is_pseudo (lower n, v) ≡ is_pseudo (n, v)
unfolding is_pseudo lower
is_pseudo-lower [] v = refl
is_pseudo-lower (c ∷ n) v = rw (colon-lower_byte c)

-- a regular field that HTTP/2 allows: a lowercase name that is not specific to a connection
pub record IsAllowed (h : Header) : Type 0 where
  pub lowercase : lower h.0 ≡ h.0
  pub end_to_end : one_of connection_specific h.0 ≡ false

-- Every field of the result is a pseudo-header, or has a lowercase name that is not specific to a
-- connection.
pub strip_for_h2-IsAllowed :
    (hs : Headers) → All (λ h. (is_pseudo h ≡ true) ⊎ IsAllowed h) (strip_for_h2 hs)
unfolding strip_for_h2
strip_for_h2-IsAllowed [] = tt
strip_for_h2-IsAllowed ((n, v) ∷ hs) = elim (Bool-cases (is_pseudo (n, v))) [
  | inl p ↦ rw (p, strip_for_h2) (inl p, strip_for_h2-IsAllowed hs)
  | inr r ↦ elim (Bool-cases (one_of connection_specific (lower n))) [
    | inl c ↦ rw (r, c, strip_for_h2) (strip_for_h2-IsAllowed hs)
    | inr e ↦
        rw (r, e, strip_for_h2)
          (inr (record { lowercase = lower_idem n; end_to_end = e }), strip_for_h2-IsAllowed hs)
  ]
]

strip_for_h2_of_IsAllowed :
    (hs : Headers) → All (λ h. (is_pseudo h ≡ true) ⊎ IsAllowed h) hs → strip_for_h2 hs ≡ hs
unfolding strip_for_h2
strip_for_h2_of_IsAllowed [] k = refl
strip_for_h2_of_IsAllowed ((n, v) ∷ hs) (inl p, k) =
    rw (p, strip_for_h2) (ap (λ t. (n, v) ∷ t) (strip_for_h2_of_IsAllowed hs k))
strip_for_h2_of_IsAllowed ((n, v) ∷ hs) (inr a, k) = elim (Bool-cases (is_pseudo (n, v))) [
  | inl p ↦ rw (p, strip_for_h2) (ap (λ t. (n, v) ∷ t) (strip_for_h2_of_IsAllowed hs k))
  | inr r ↦
      rw (r, a.lowercase, a.end_to_end, strip_for_h2)
        (ap (λ t. (n, v) ∷ t) (strip_for_h2_of_IsAllowed hs k))
]

-- Stripping the fields a second time changes nothing.
pub strip_for_h2_idem : (hs : Headers) → strip_for_h2 (strip_for_h2 hs) ≡ strip_for_h2 hs
strip_for_h2_idem hs = strip_for_h2_of_IsAllowed (strip_for_h2 hs) (strip_for_h2-IsAllowed hs)
