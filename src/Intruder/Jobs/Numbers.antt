-- ===== src/Intruder/Jobs/Numbers.antt =====
-- The numbers of the jobs, and the sizes of what they carry.
use mathlib.Core.Path.{subst}
use brup_http_proxy.Prelude.{
  ℕ, zero, suc, ◌≤◌, ◌≡◌, refl, sym, ◌∙◌, ap, Bool, some, List, [], ◌∷◌, map, arith, Bool-cases,
  Option-cases, inl, inr, ltb, leb, is_empty, ◌||◌, take, length, All, All-append, length-map,
  length-set, length-replicate, length-take,
}
use brup_http_proxy.Bytes.{Bytes}
use brup_http_proxy.Intruder.Jobs.{
  AttackType, sniper, battering_ram, pitchfork, cluster_bomb, Job, enc, first_set, sniper_row,
  sniper_rows, ram_jobs, combo_jobs, zip_with, zip_all, spread, product, usable_sets, generate_jobs,
}

-- The jobs are numbered one by one from `i`, below the limit, and each has `n` values.
abbrev pub Numbered : ℕ → ℕ → ℕ → List Job → Type 0
Numbered n limit i [] = Unit
Numbered n limit i (job ∷ jobs) =
    (job.index ≡ i) × (suc i ≤ limit) × (length job.values ≡ n) × Numbered n limit (suc i) jobs

module _ (url_encode : Bool) (n limit : ℕ) where
  Numbered-sniper_row :
      (bases : List Bytes) (pos : ℕ) (payloads : List Bytes) (index : ℕ) (next : ℕ → List Job)
      → length bases ≡ n
      → ((i : ℕ) → Numbered n limit i (next i))
      → Numbered n limit index (sniper_row url_encode limit bases pos payloads index next)
  unfolding sniper_row
  Numbered-sniper_row bases pos [] index next hb h = h index
  Numbered-sniper_row bases pos (v ∷ payloads) index next hb h =
      elim (Bool-cases (leb limit index)) [
        | inl e ↦ rw e tt
        | inr e ↦ rw e (
          refl,
          ground arith,
          length-set bases pos (enc url_encode v) ∙ hb,
          Numbered-sniper_row bases pos payloads (suc index) next hb h,
        )
      ]

  Numbered-sniper_rows :
      (bases payloads : List Bytes) (pos count index : ℕ)
      → length bases ≡ n
      → Numbered n limit index (sniper_rows url_encode limit bases payloads pos count index)
  unfolding sniper_rows
  Numbered-sniper_rows bases payloads pos zero index hb = tt
  Numbered-sniper_rows bases payloads pos (suc count) index hb =
      Numbered-sniper_row bases pos payloads index
        (sniper_rows url_encode limit bases payloads (suc pos) count) hb
        (λ i. Numbered-sniper_rows bases payloads (suc pos) count i hb)

  Numbered-ram_jobs :
      (payloads : List Bytes) (index : ℕ)
      → Numbered n limit index (ram_jobs url_encode limit n payloads index)
  unfolding ram_jobs
  Numbered-ram_jobs [] index = tt
  Numbered-ram_jobs (v ∷ payloads) index = elim (Bool-cases (leb limit index)) [
    | inl e ↦ rw e tt
    | inr e ↦ rw e (
      refl,
      ground arith,
      length-replicate n (enc url_encode v),
      Numbered-ram_jobs payloads (suc index),
    )
  ]

  Numbered-combo_jobs :
      (combos : List (List Bytes)) (index : ℕ)
      → All (λ c. length c ≡ n) combos
      → Numbered n limit index (combo_jobs url_encode limit combos index)
  unfolding combo_jobs
  Numbered-combo_jobs [] index h = tt
  Numbered-combo_jobs (c ∷ combos) index h = elim (Bool-cases (leb limit index)) [
    | inl e ↦ rw e tt
    | inr e ↦ rw e (
      refl,
      ground arith,
      length-map c (enc url_encode) ∙ h.0,
      Numbered-combo_jobs combos (suc index) h.1,
    )
  ]

-- all combinations have one length
abbrev Sized : ℕ → List (List Bytes) → Type 0
Sized n = All (λ c. length c ≡ n)

zip_with-Sized :
    (n : ℕ) (s : List Bytes) (combos : List (List Bytes))
    → Sized n combos
    → Sized (suc n) (zip_with s combos)
unfolding zip_with
zip_with-Sized n [] combos h = tt
zip_with-Sized n (v ∷ s) [] h = tt
zip_with-Sized n (v ∷ s) (c ∷ combos) h = (ap suc h.0, zip_with-Sized n s combos h.1)

singles-Sized : (s : List Bytes) → Sized 1 (map (λ v. v ∷ []) s)
singles-Sized [] = tt
singles-Sized (v ∷ s) = (refl, singles-Sized s)

zip_all-Sized : (sets : List (List Bytes)) → Sized (length sets) (zip_all sets)
unfolding zip_all
zip_all-Sized [] = tt
zip_all-Sized (s ∷ []) = singles-Sized s
zip_all-Sized (s ∷ t ∷ sets) =
    zip_with-Sized (length (t ∷ sets)) s (zip_all (t ∷ sets)) (zip_all-Sized (t ∷ sets))

cons-Sized :
    (n : ℕ) (v : Bytes) (combos : List (List Bytes))
    → Sized n combos
    → Sized (suc n) (map (λ c. v ∷ c) combos)
cons-Sized n v [] h = tt
cons-Sized n v (c ∷ combos) h = (ap suc h.0, cons-Sized n v combos h.1)

spread-Sized :
    (n : ℕ) (s : List Bytes) (combos : List (List Bytes))
    → Sized n combos
    → Sized (suc n) (spread s combos)
unfolding spread
spread-Sized n [] combos h = tt
spread-Sized n (v ∷ s) combos h =
    All-append (λ c. length c ≡ suc n) (map (λ c. v ∷ c) combos) (spread s combos)
      (cons-Sized n v combos h) (spread-Sized n s combos h)

product-Sized : (sets : List (List Bytes)) → Sized (length sets) (product sets)
unfolding product
product-Sized [] = (refl, tt)
product-Sized (s ∷ sets) = spread-Sized (length sets) s (product sets) (product-Sized sets)

length-usable_sets :
    (n : ℕ) (sets usable : List (List Bytes)) → usable_sets n sets ≡ some usable → length usable ≡ n
unfolding usable_sets
length-usable_sets n sets usable e =
    elim (Bool-cases (ltb (length (take n sets)) n || is_empty (take n sets))) [
      | inl c ↦ absurd (ground arith)
      | inr c ↦
          let same : take n sets ≡ usable = ground arith in
          let enough : length (take n sets) ≡ n = ground (arith, length-take n sets) in
          ap length (sym same) ∙ enough
    ]

-- Whatever the type of attack, the jobs are numbered 0, 1, 2 and so on without a gap, none reaches the
-- limit, and each has one value for every position.
pub generate_jobs-Numbered :
    (attack_type : AttackType) (bases : List Bytes) (sets : List (List Bytes)) (url_encode : Bool)
    (limit : ℕ)
    → Numbered (length bases) limit 0 (generate_jobs attack_type bases sets url_encode limit)
unfolding generate_jobs
generate_jobs-Numbered sniper bases sets u limit =
    Numbered-sniper_rows u (length bases) limit bases (first_set sets) 0 (length bases) 0 refl
generate_jobs-Numbered battering_ram bases sets u limit =
    Numbered-ram_jobs u (length bases) limit (first_set sets) 0
generate_jobs-Numbered pitchfork bases sets u limit =
    elim (Option-cases (usable_sets (length bases) sets)) [
      | inl e ↦ rw (e, generate_jobs) tt
      | inr (usable, e) ↦
          rw (e, generate_jobs)
            (Numbered-combo_jobs u (length bases) limit (zip_all usable) 0 (
              subst (λ n. Sized n (zip_all usable))
                (length-usable_sets (length bases) sets usable e) (zip_all-Sized usable)))
    ]
generate_jobs-Numbered cluster_bomb bases sets u limit =
    elim (Option-cases (usable_sets (length bases) sets)) [
      | inl e ↦ rw (e, generate_jobs) tt
      | inr (usable, e) ↦
          rw (e, generate_jobs)
            (Numbered-combo_jobs u (length bases) limit (product usable) 0 (
              subst (λ n. Sized n (product usable))
                (length-usable_sets (length bases) sets usable e) (product-Sized usable)))
    ]
