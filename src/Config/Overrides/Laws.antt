-- ===== src/Config/Overrides/Laws.antt =====
-- What overrides of a project can change.
use mathlib.Core.Path.{subst}
use brup_http_proxy.Prelude.{
  ◌≡◌, refl, sym, ◌∙◌, ap, true, false, Option, none, some, List, [], ◌∷◌, arith, All, Bool-cases,
  inl, inr, if◌then◌else◌,
}
use brup_http_proxy.Bytes.{Bytes, bytes_eq}
use brup_http_proxy.Bytes.Laws.{bytes_eq_iff}
use brup_http_proxy.Result.{Result, ok, Result-cases, ok-inj}
use brup_http_proxy.Config.Overrides.{
  system_only_keys, project_overridable_keys, key_in, assign, overridden, clean_from,
  merge_settings, validate_overrides,
}

-- an element of the list has what all have
among :
    (P : Bytes → Type 0) (keys : List Bytes) (key : Bytes)
    → All P keys
    → key_in key keys ≡ true
    → P key
unfolding key_in
among P [] key h e = absurd (cc e)
among P (k ∷ keys) key h e = elim (Bool-cases (bytes_eq key k)) [
  | inl same ↦ subst P (sym ((bytes_eq_iff key k).0 same)) h.0
  | inr other ↦ among P keys key h.1 (ground (arith, e, other))
]

system_only-not_overridable :
    (key : Bytes) → key_in key system_only_keys ≡ true → key_in key project_overridable_keys ≡ false
unfolding key_in bytes_eq
system_only-not_overridable key =
    among (λ k. key_in k project_overridable_keys ≡ false) system_only_keys key
      (refl, (refl, (refl, (refl, (refl, (refl, (refl, (refl, (refl, (refl, tt))))))))))

differ : (j k key : Bytes) → bytes_eq j k ≡ false → bytes_eq k key ≡ true → bytes_eq j key ≡ false
differ j k key e f = elim (Bool-cases (bytes_eq j key)) [
  | inl g ↦
      absurd
        (cc (e, (bytes_eq_iff j k).1 ((bytes_eq_iff j key).0 g ∙ sym ((bytes_eq_iff k key).0 f))))
  | inr g ↦ g
]

-- keys that one list tells apart
apart :
    (keys : List Bytes) (k key : Bytes)
    → key_in k keys ≡ false
    → key_in key keys ≡ true
    → bytes_eq k key ≡ false
apart keys k key e h = elim (Bool-cases (bytes_eq k key)) [
  | inl g ↦ absurd (cc (ap (λ i. key_in i keys) ((bytes_eq_iff k key).0 g), e, h))
  | inr g ↦ g
]

apart_system :
    (k key : Bytes)
    → key_in k project_overridable_keys ≡ true
    → key_in key system_only_keys ≡ true
    → bytes_eq k key ≡ false
apart_system k key e h = elim (Bool-cases (bytes_eq k key)) [
  | inl g ↦ absurd (
      cc (
        ap (λ i. key_in i project_overridable_keys) ((bytes_eq_iff k key).0 g),
        e,
        system_only-not_overridable key h,
      ))
  | inr g ↦ g
]

module _ {ℓ} {V : Type ℓ} where
  -- `data.get(key)`
  abbrev pub lookup : Bytes → List (Bytes × V) → Option V
  lookup key [] = none
  lookup key ((k, v) ∷ data') = if bytes_eq k key then some v else lookup key data'

  -- the value that the overrides give last, or `otherwise`
  abbrev pub latest : Bytes → List (Bytes × V) → Option V → Option V
  latest key [] otherwise = otherwise
  latest key ((k, v) ∷ overrides) otherwise =
      latest key overrides (if bytes_eq k key then some v else otherwise)

  lookup-assign :
      (key k : Bytes) (v : V) (data' : List (Bytes × V))
      → lookup key (assign data' k v) ≡ (if bytes_eq k key then some v else lookup key data')
  unfolding assign
  lookup-assign key k v [] = refl
  lookup-assign key k v ((j, w) ∷ data') = elim (Bool-cases (bytes_eq j k)) [
    | inl e ↦
        let same : bytes_eq j key ≡ bytes_eq k key =
          ap (λ i. bytes_eq i key) ((bytes_eq_iff j k).0 e) in
        rw (e, assign) (ground (arith, same))
    | inr e ↦
        rw (e, assign)
          (elim (Bool-cases (bytes_eq k key)) [
            | inl f ↦ rw f (rw (differ j k key e f) (lookup-assign key k v data' ∙ rw f refl))
            | inr f ↦ rw f (
                ap (λ o. if bytes_eq j key then some w else o)
                  (lookup-assign key k v data' ∙ rw f refl))
          ])
  ]

  -- For a key that a project may override, the merged settings have the last value that the overrides
  -- give it, and the system's value if they give none.
  pub lookup-overridden :
      (key : Bytes) (data' overrides : List (Bytes × V))
      → key_in key project_overridable_keys ≡ true
      → lookup key (overridden data' overrides) ≡ latest key overrides (lookup key data')
  unfolding overridden
  lookup-overridden key data' [] h = refl
  lookup-overridden key data' ((k, v) ∷ overrides) h =
      elim (Bool-cases (key_in k project_overridable_keys)) [
        | inl e ↦
            rw (e, overridden)
              (lookup-overridden key (assign data' k v) overrides h
                ∙ ap (latest key overrides) (lookup-assign key k v data'))
        | inr e ↦
            let other = apart project_overridable_keys k key e h in
            rw (e, overridden) (rw other (lookup-overridden key data' overrides h))
      ]

  -- No override changes the system's value of a system-wide setting, whatever the overrides are.
  pub lookup-overridden_system :
      (key : Bytes) (data' overrides : List (Bytes × V))
      → key_in key system_only_keys ≡ true
      → lookup key (overridden data' overrides) ≡ lookup key data'
  unfolding overridden
  lookup-overridden_system key data' [] h = refl
  lookup-overridden_system key data' ((k, v) ∷ overrides) h =
      elim (Bool-cases (key_in k project_overridable_keys)) [
        | inl e ↦
            let other = apart_system k key e h in
            rw (e, overridden)
              (lookup-overridden_system key (assign data' k v) overrides h
                ∙ lookup-assign key k v data'
                ∙ rw other refl)
        | inr e ↦ rw (e, overridden) (lookup-overridden_system key data' overrides h)
      ]

  -- all keys may be overridden by a project
  abbrev pub Overridable : List (Bytes × V) → Type 0
  Overridable cleaned =
      All (λ (entry : Bytes × V). key_in entry.0 project_overridable_keys ≡ true) cleaned

  Overridable-assign :
      (cleaned : List (Bytes × V)) (k : Bytes) (v : V)
      → key_in k project_overridable_keys ≡ true
      → Overridable cleaned
      → Overridable (assign cleaned k v)
  unfolding assign
  Overridable-assign [] k v e h = (e, tt)
  Overridable-assign ((j, w) ∷ cleaned) k v e h = elim (Bool-cases (bytes_eq j k)) [
    | inl c ↦ rw (c, assign) h
    | inr c ↦ rw (c, assign) (h.0, Overridable-assign cleaned k v e h.1)
  ]

  clean_from-Overridable :
      (so_far cleaned : List (Bytes × V)) (overrides : List (Bytes × Option V))
      → clean_from so_far overrides ≡ ok cleaned
      → Overridable so_far
      → Overridable cleaned
  unfolding clean_from
  clean_from-Overridable so_far cleaned [] e h = subst Overridable (ok-inj e) h
  clean_from-Overridable so_far cleaned ((k, none) ∷ overrides) e h =
      clean_from-Overridable so_far cleaned overrides (ground (arith, e)) h
  clean_from-Overridable so_far cleaned ((k, some v) ∷ overrides) e h =
      elim (Bool-cases (key_in k project_overridable_keys)) [
        | inl c ↦
            clean_from-Overridable (assign so_far k v) cleaned overrides (ground (arith, e, c))
              (Overridable-assign so_far k v c h)
        | inr c ↦ absurd (ground (arith, e, c))
      ]

module _ {ℓ κ} {V : Type ℓ} {S : Type κ} (model_validate : List (Bytes × V) → Result S)
    (model_dump : S → List (Bytes × V)) where
  -- Overrides that validation accepts name only settings that a project may override.
  pub validate_overrides-Overridable :
      (defaults : S) (overrides : List (Bytes × Option V)) (cleaned : List (Bytes × V))
      → validate_overrides model_validate model_dump defaults overrides ≡ ok cleaned
      → Overridable cleaned
  unfolding validate_overrides
  validate_overrides-Overridable defaults overrides cleaned e =
      elim (Result-cases (clean_from [] overrides)) [
        | inl (found, c) ↦
            elim (Result-cases (merge_settings model_validate model_dump defaults found)) [
              | inl (merged, m) ↦
                  subst Overridable (ok-inj (ground (arith, e, c, m)))
                    (clean_from-Overridable [] found overrides c tt)
              | inr (x, m) ↦ absurd (ground (arith, e, c, m))
            ]
        | inr (x, c) ↦ absurd (ground (arith, e, c))
      ]
