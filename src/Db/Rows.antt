-- ===== src/Db/Rows.antt =====
-- Laws of selecting, updating and deleting rows.
use brup_http_proxy.Prelude.{
  ◌≡◌, refl, sym, ◌∙◌, ap, Bool, true, false, not, none, some, List, [], ◌∷◌, ◌++◌, Bool-cases, inl,
  inr, keep, All, arith, if◌then◌else◌,
}
use brup_http_proxy.Db.{first_row, update_rows, delete_rows}

module _ {ℓ} {A : Type ℓ} where
  -- Selections can be exchanged.
  pub keep-keep : (p q : A → Bool) (xs : List A) → keep p (keep q xs) ≡ keep q (keep p xs)
  keep-keep p q [] = refl
  keep-keep p q (x ∷ xs) = elim (Bool-cases (p x)) [
    | inl e ↦ elim (Bool-cases (q x)) [
      | inl f ↦ simp (e, f, keep) (ap (λ t. x ∷ t) (keep-keep p q xs))
      | inr f ↦ simp (e, f, keep) (keep-keep p q xs)
    ]
    | inr e ↦ elim (Bool-cases (q x)) [
      | inl f ↦ simp (e, f, keep) (keep-keep p q xs)
      | inr f ↦ simp (e, f, keep) (keep-keep p q xs)
    ]
  ]

  -- Only what a condition says of the rows that are selected matters.
  pub keep_same :
      (p q r : A → Bool) (xs : List A)
      → ((x : A) → r x ≡ true → p x ≡ q x)
      → keep p (keep r xs) ≡ keep q (keep r xs)
  keep_same p q r [] h = refl
  keep_same p q r (x ∷ xs) h = elim (Bool-cases (r x)) [
    | inr e ↦ simp (e, keep) (keep_same p q r xs h)
    | inl e ↦ elim (Bool-cases (p x)) [
      | inl f ↦ simp (e, f, sym (h x e) ∙ f, keep) (ap (λ t. x ∷ t) (keep_same p q r xs h))
      | inr f ↦ simp (e, f, sym (h x e) ∙ f, keep) (keep_same p q r xs h)
    ]
  ]

  pub keep-All : (p : A → Bool) (xs : List A) → All (λ x. p x ≡ true) xs → keep p xs ≡ xs
  keep-All p [] h = refl
  keep-All p (x ∷ xs) h = simp (h.0, keep) (ap (λ t. x ∷ t) (keep-All p xs h.1))

  All-true : (xs : List A) → All (λ x. Path Bool true true) xs
  All-true [] = tt
  All-true (x ∷ xs) = (refl, All-true xs)

  -- A condition that all selected rows meet selects nothing more.
  pub keep_implied :
      (p r : A → Bool) (xs : List A)
      → ((x : A) → r x ≡ true → p x ≡ true)
      → keep p (keep r xs) ≡ keep r xs
  keep_implied p r xs h =
      keep_same p (λ x. true) r xs h ∙ keep-All (λ x. true) (keep r xs) (All-true (keep r xs))

  -- No row that is deleted is left.
  pub keep-delete_rows : (p : A → Bool) (xs : List A) → keep p (delete_rows p xs) ≡ []
  keep-delete_rows p [] = refl
  keep-delete_rows p (x ∷ xs) = elim (Bool-cases (p x)) [
    | inl e ↦ simp (e, keep, delete_rows) (keep-delete_rows p xs)
    | inr e ↦ simp (e, keep, delete_rows) (keep-delete_rows p xs)
  ]

  -- Rows that differ from the deleted ones stay.
  pub keep-delete_rows_other :
      (p r : A → Bool) (xs : List A)
      → ((x : A) → r x ≡ true → p x ≡ false)
      → keep r (delete_rows p xs) ≡ keep r xs
  keep-delete_rows_other p r xs h =
      keep-keep r (λ x. not (p x)) xs ∙ keep_implied (λ x. not (p x)) r xs (λ x e. ap not (h x e))

  pub All-delete_rows : (p : A → Bool) (xs : List A) → All (λ x. p x ≡ false) (delete_rows p xs)
  All-delete_rows p [] = tt
  All-delete_rows p (x ∷ xs) = elim (Bool-cases (p x)) [
    | inl e ↦ simp (e, keep, delete_rows) (All-delete_rows p xs)
    | inr e ↦ simp (e, keep, delete_rows) (refl, All-delete_rows p xs)
  ]

  pub All-keep {κ} : (P : A → Type κ) (p : A → Bool) (xs : List A) → All P xs → All P (keep p xs)
  All-keep P p [] h = tt
  All-keep P p (x ∷ xs) h = elim (Bool-cases (p x)) [
    | inl e ↦ simp (e, keep) (h.0, All-keep P p xs h.1)
    | inr e ↦ simp (e, keep) (All-keep P p xs h.1)
  ]

  -- The first row that a condition finds is the same after deletions of others,
  pub first_row-delete_rows :
      (p r : A → Bool) (xs : List A)
      → ((x : A) → r x ≡ true → p x ≡ false)
      → first_row r (delete_rows p xs) ≡ first_row r xs
  unfolding first_row
  first_row-delete_rows p r [] h = refl
  first_row-delete_rows p r (x ∷ xs) h = elim (Bool-cases (r x)) [
    | inl e ↦ simp (e, h x e, keep, delete_rows, first_row) refl
    | inr e ↦ elim (Bool-cases (p x)) [
      | inl f ↦ simp (e, f, keep, delete_rows, first_row) (first_row-delete_rows p r xs h)
      | inr f ↦ simp (e, f, keep, delete_rows, first_row) (first_row-delete_rows p r xs h)
    ]
  ]

  -- there is none after it is deleted,
  pub first_row-delete_rows-none :
      (p : A → Bool) (xs : List A) → first_row p (delete_rows p xs) ≡ none
  unfolding first_row
  first_row-delete_rows-none p [] = refl
  first_row-delete_rows-none p (x ∷ xs) = elim (Bool-cases (p x)) [
    | inl e ↦ simp (e, keep, delete_rows, first_row) (first_row-delete_rows-none p xs)
    | inr e ↦ simp (e, keep, delete_rows, first_row) (first_row-delete_rows-none p xs)
  ]

  -- a row that is there stays the first when one is added,
  pub first_row-append :
      (p : A → Bool) (xs : List A) (y x : A)
      → first_row p xs ≡ some x
      → first_row p (xs ++ y ∷ []) ≡ some x
  unfolding first_row
  first_row-append p [] y x e = absurd (cc e)
  first_row-append p (z ∷ xs) y x e = elim (Bool-cases (p z)) [
    | inl f ↦ simp (f, first_row) (ground (arith, e, f))
    | inr f ↦ simp (f, first_row) (first_row-append p xs y x (ground (arith, e, f)))
  ]

  -- and an update that keeps what the condition reads changes that row.
  pub first_row-update_rows :
      (p q : A → Bool) (f : A → A) (xs : List A)
      → ((x : A) → p (f x) ≡ p x)
      → first_row p (update_rows q f xs)
        ≡ (elim (first_row p xs) [ none ↦ none | some x ↦ some (if q x then f x else x) ])
  unfolding first_row update_rows
  first_row-update_rows p q f [] h = refl
  first_row-update_rows p q f (x ∷ xs) h = elim (Bool-cases (p x)) [
    | inl e ↦ elim (Bool-cases (q x)) [
      | inl g ↦ simp (e, g, h x, first_row, update_rows) refl
      | inr g ↦ simp (e, g, first_row, update_rows) refl
    ]
    | inr e ↦ elim (Bool-cases (q x)) [
      | inl g ↦ simp (e, g, h x, first_row, update_rows) (first_row-update_rows p q f xs h)
      | inr g ↦ simp (e, g, first_row, update_rows) (first_row-update_rows p q f xs h)
    ]
  ]
