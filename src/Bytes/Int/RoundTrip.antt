-- ===== src/Bytes/Int/RoundTrip.antt =====
-- `int(str(n))` is `n`.
use mathlib.Core.Path.{ap₂}
use brup_http_proxy.Prelude.{
  ℕ, zero, suc, ◌+◌, ◌*◌, ◌/◌, ◌%◌, ◌≤◌, ◌<◌, ◌≡◌, ◌≢◌, refl, sym, ◌∙◌, ap, inl, inr, Bool, true,
  false, some, [], ◌∷◌, ◌++◌, arith, ltb, ltb_of_lt, ==_ne, All, All-append, length, length-append,
  append_assoc, append-nil, Bool-cases,
}
use brup_http_proxy.Bytes.{Bytes, is_space, is_space_text}
use brup_http_proxy.Bytes.Trim.{IsWord, IsTrimmed-of_IsWord, strip_of_IsTrimmed, strip_solid}
use brup_http_proxy.Bytes.Int.{
  pos, digit, scan, drop_prefix, unsigned, signed, int_of, is_int_space, int_of_text, decimal_from,
  decimal, max_str_digits,
}

abbrev pub IsDigit : ℕ → Type 0
IsDigit c = (48 ≤ c) × (c ≤ 57)

digit_lem : (d : ℕ) → d < 10 → digit 10 (48 + d) ≡ some d
unfolding digit
digit_lem d h = ground arith

scan_step :
    (after : Bool) (m count d : ℕ) (s : Bytes)
    → d < 10
    → scan 10 after m count ((48 + d) ∷ s) ≡ scan 10 true (m * 10 + d) (count + 1) s
unfolding scan
scan_step after m count d s h = ground (arith, digit_lem d h)

scan-decimal_from :
    (fuel n : ℕ) (after : Bool) (count : ℕ) (s : Bytes)
    → n < fuel
    → scan 10 after 0 count (decimal_from fuel n ++ s)
      ≡ scan 10 true n (count + length (decimal_from fuel n)) s
unfolding decimal_from
scan-decimal_from zero n after count s h = elim h [ ]
scan-decimal_from (suc fuel) n after count s h = elim (Bool-cases (ltb n 10)) [
  | inl small ↦
      rw (small, decimal_from)
        (scan_step after 0 count n s (ground arith)
          ∙ ap (λ m. scan 10 true m (count + 1) s) (omega arith))
  | inr big ↦
      rw (big, decimal_from)
        (rw (append_assoc (decimal_from fuel (n / 10)) ((48 + n % 10) ∷ []) s) (
          scan-decimal_from fuel (n / 10) after count ((48 + n % 10) ∷ s) (ground arith)
          ∙ scan_step true (n / 10) (count + length (decimal_from fuel (n / 10))) (n % 10) s
              (omega arith)
          ∙ ap₂ (λ m k. scan 10 true m k s) (omega arith)
              (omega (arith, length-append (decimal_from fuel (n / 10)) ((48 + n % 10) ∷ [])))))
]

decimal_from-IsDigit : (fuel n : ℕ) → All IsDigit (decimal_from fuel n)
unfolding decimal_from
decimal_from-IsDigit zero n = tt
decimal_from-IsDigit (suc fuel) n = elim (Bool-cases (ltb n 10)) [
  | inl small ↦ rw (small, decimal_from) ((ground arith, ground arith), tt)
  | inr big ↦
      rw (big, decimal_from)
        (All-append IsDigit (decimal_from fuel (n / 10)) ((48 + n % 10) ∷ [])
          (decimal_from-IsDigit fuel (n / 10)) ((omega arith, omega arith), tt))
]

pub decimal-IsDigit : (n : ℕ) → All IsDigit (decimal n)
unfolding decimal
decimal-IsDigit n = decimal_from-IsDigit (suc n) n

decimal_from-ne_nil : (fuel n : ℕ) → decimal_from (suc fuel) n ≢ []
unfolding decimal_from
decimal_from-ne_nil fuel n = elim (Bool-cases (ltb n 10)) [
  | inl small ↦ rw (small, decimal_from) (λ e. cc e)
  | inr big ↦ rw (big, decimal_from) (append_one-ne_nil (decimal_from fuel (n / 10)) (48 + n % 10))
]
  where
    append_one-ne_nil : (s : Bytes) (c : ℕ) → s ++ c ∷ [] ≢ []
    append_one-ne_nil [] c = λ e. cc e
    append_one-ne_nil (x ∷ s) c = λ e. cc e

digits_solid : (s : Bytes) → All IsDigit s → All (λ x. is_space x ≡ false) s
unfolding is_space
digits_solid [] h = tt
digits_solid (x ∷ s) h = (ground arith, digits_solid s h.1)

abbrev ten_to : ℕ → ℕ
ten_to zero = 1
ten_to (suc k) = 10 * ten_to k

length-decimal_from : (fuel n k : ℕ) → n < ten_to (suc k) → length (decimal_from fuel n) ≤ suc k
unfolding decimal_from
length-decimal_from zero n k h = omega arith
length-decimal_from (suc fuel) n zero h =
    rw (ltb_of_lt n 10 (omega arith), decimal_from) (omega arith)
length-decimal_from (suc fuel) n (suc k) h = elim (Bool-cases (ltb n 10)) [
  | inl small ↦ rw (small, decimal_from) (omega arith)
  | inr big ↦
      rw (big, decimal_from)
        (omega (
          arith,
          length-append (decimal_from fuel (n / 10)) ((48 + n % 10) ∷ []),
          length-decimal_from fuel (n / 10) k (omega arith),
        ))
]

-- the decimal digits of a body's length are few
pub length-decimal : (n : ℕ) → n ≤ 64 * 1024 * 1024 → length (decimal n) ≤ 8
unfolding decimal
length-decimal n h = length-decimal_from (suc n) n 7 (omega arith)

pub decimal-IsWord : (n : ℕ) → IsWord (decimal n)
unfolding decimal
decimal-IsWord n = record {
  filled = decimal_from-ne_nil n n;
  solid = digits_solid (decimal n) (decimal-IsDigit n);
}

scan-decimal : (n : ℕ) → scan 10 false 0 0 (decimal n) ≡ some (n, length (decimal n))
unfolding decimal
scan-decimal n =
    ap (scan 10 false 0 0) (sym (append-nil (decimal_from (suc n) n)))
    ∙ scan-decimal_from (suc n) n false 0 [] (omega arith)
    ∙ (unfold scan in ap (λ k. some (n, k)) (omega arith))

drop_prefix_ten : (s : Bytes) → drop_prefix 10 s ≡ s
unfolding drop_prefix
drop_prefix_ten [] = refl
drop_prefix_ten (x ∷ []) = refl
drop_prefix_ten (x ∷ y ∷ []) = refl
drop_prefix_ten (x ∷ y ∷ z ∷ s) = refl

unsigned-decimal : (n : ℕ) → length (decimal n) ≤ max_str_digits → unsigned 10 (decimal n) ≡ some n
unfolding unsigned
unsigned-decimal n h = rw (drop_prefix_ten, scan-decimal n, unsigned) (ground arith)

signed_digits :
    (s : Bytes)
    → s ≢ []
    → All IsDigit s
    → {n : ℕ} → unsigned 10 s ≡ some n
    → signed 10 s ≡ some (pos n)
unfolding signed
signed_digits [] ne h e = absurd (ne refl)
signed_digits (c ∷ s) ne h e =
    rw (==_ne c 45 (omega arith), ==_ne c 43 (omega arith)) (rw (e, signed))

signed-decimal :
    (n : ℕ) → length (decimal n) ≤ max_str_digits → signed 10 (decimal n) ≡ some (pos n)
signed-decimal n h =
    signed_digits (decimal n) (decimal-IsWord n).filled (decimal-IsDigit n) (unsigned-decimal n h)

-- Reading back the decimal digits of a number gives the number, up to the interpreter's limit on digits.
pub int_of-decimal :
    (n : ℕ) → length (decimal n) ≤ max_str_digits → int_of 10 (decimal n) ≡ some (pos n)
unfolding int_of
int_of-decimal n h =
    rw (strip_of_IsTrimmed (decimal n) (IsTrimmed-of_IsWord (decimal n) (decimal-IsWord n)))
      (signed-decimal n h)

digits_solid_text : (s : Bytes) → All IsDigit s → All (λ x. is_space_text x ≡ false) s
unfolding is_space_text
digits_solid_text [] h = tt
digits_solid_text (x ∷ s) h = (ground arith, digits_solid_text s h.1)

pub decimal_solid_text : (n : ℕ) → All (λ x. is_space_text x ≡ false) (decimal n)
decimal_solid_text n = digits_solid_text (decimal n) (decimal-IsDigit n)

digits_solid_int : (s : Bytes) → All IsDigit s → All (λ x. is_int_space x ≡ false) s
unfolding is_int_space
digits_solid_int [] h = tt
digits_solid_int (x ∷ s) h = (ground arith, digits_solid_int s h.1)

pub int_of_text-decimal :
    (n : ℕ) → length (decimal n) ≤ max_str_digits → int_of_text (decimal n) ≡ some (pos n)
unfolding int_of_text
int_of_text-decimal n h =
    rw (strip_solid is_int_space (decimal n) (digits_solid_int (decimal n) (decimal-IsDigit n)))
      (signed-decimal n h)
