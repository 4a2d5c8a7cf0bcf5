-- ===== src/Intruder/Jobs/Count.antt =====
-- How many jobs `generate_jobs` makes, against what `count_jobs` says.
use mathlib.Core.Path.{subst}
use native.Mathlib.Nat.{mul_assoc, one-mul, mul-le-mul_left, suc-mul, zero-mul, mul-one}
use brup_http_proxy.Prelude.{
  ℕ, zero, suc, ◌+◌, ◌-◌, ◌*◌, ◌≤◌, ◌≡◌, ◌≢◌, refl, sym, ◌∙◌, ap, min, Bool, false, some, List, [],
  ◌∷◌, map, arith, Bool-cases, Option-cases, inl, inr, ltb, ◌==◌, take, length, is_empty, ◌||◌, All,
  length-append, length-map,
}
use brup_http_proxy.Bytes.{Bytes}
use brup_http_proxy.Intruder.Jobs.{
  AttackType, sniper, battering_ram, pitchfork, cluster_bomb, Job, max_requests, first_set,
  sniper_row, sniper_rows, ram_jobs, combo_jobs, zip_with, zip_all, spread, product, usable_sets,
  generate_jobs, shortest, count_combos, count_jobs,
}

module _ (url_encode : Bool) (limit : ℕ) where
  length-sniper_row :
      (bases : List Bytes) (pos : ℕ) (payloads : List Bytes) (index m : ℕ) (next : ℕ → List Job)
      → ((i : ℕ) → length (next i) ≡ min (limit - i) m)
      → length (sniper_row url_encode limit bases pos payloads index next)
        ≡ min (limit - index) (length payloads + m)
  unfolding sniper_row
  length-sniper_row bases pos [] index m next h = omega (arith, h index)
  length-sniper_row bases pos (v ∷ payloads) index m next h =
      ground (arith, length-sniper_row bases pos payloads (suc index) m next h)

  length-sniper_rows :
      (bases payloads : List Bytes) (pos count index : ℕ)
      → length (sniper_rows url_encode limit bases payloads pos count index)
        ≡ min (limit - index) (count * length payloads)
  unfolding sniper_rows
  length-sniper_rows bases payloads pos zero index = omega arith
  length-sniper_rows bases payloads pos (suc count) index =
      length-sniper_row bases pos payloads index (count * length payloads)
        (sniper_rows url_encode limit bases payloads (suc pos) count)
        (length-sniper_rows bases payloads (suc pos) count)
      ∙ omega (arith, suc-mul count (length payloads))

  length-ram_jobs :
      (n : ℕ) (payloads : List Bytes) (index : ℕ)
      → length (ram_jobs url_encode limit n payloads index) ≡ min (limit - index) (length payloads)
  unfolding ram_jobs
  length-ram_jobs n [] index = omega arith
  length-ram_jobs n (v ∷ payloads) index = ground (arith, length-ram_jobs n payloads (suc index))

  length-combo_jobs :
      (combos : List (List Bytes)) (index : ℕ)
      → length (combo_jobs url_encode limit combos index) ≡ min (limit - index) (length combos)
  unfolding combo_jobs
  length-combo_jobs [] index = omega arith
  length-combo_jobs (c ∷ combos) index = ground (arith, length-combo_jobs combos (suc index))

length-zip_with :
    (s : List Bytes) (combos : List (List Bytes))
    → length (zip_with s combos) ≡ min (length s) (length combos)
unfolding zip_with
length-zip_with [] combos = omega arith
length-zip_with (v ∷ s) [] = omega arith
length-zip_with (v ∷ s) (c ∷ combos) = omega (arith, length-zip_with s combos)

length-zip_all : (sets : List (List Bytes)) → length (zip_all sets) ≡ shortest sets
unfolding zip_all shortest
length-zip_all [] = refl
length-zip_all (s ∷ []) = length-map s (λ v. v ∷ [])
length-zip_all (s ∷ t ∷ sets) =
    length-zip_with s (zip_all (t ∷ sets)) ∙ ap (min (length s)) (length-zip_all (t ∷ sets))

-- the product of the sizes
abbrev sizes : List (List Bytes) → ℕ
sizes [] = 1
sizes (s ∷ sets) = length s * sizes sets

length-spread :
    (s : List Bytes) (combos : List (List Bytes))
    → length (spread s combos) ≡ length s * length combos
unfolding spread
length-spread [] combos = sym (zero-mul (length combos))
length-spread (v ∷ s) combos = omega (
  arith,
  length-append (map (λ c. v ∷ c) combos) (spread s combos),
  length-map combos (λ c. v ∷ c),
  length-spread s combos,
  suc-mul (length s) (length combos),
)

length-product : (sets : List (List Bytes)) → length (product sets) ≡ sizes sets
unfolding product
length-product [] = refl
length-product (s ∷ sets) =
    length-spread s (product sets) ∙ ap (λ n. length s * n) (length-product sets)

abbrev pub IsFilled : List Bytes → Type 0
IsFilled s = s ≢ []

size_pos : (s : List Bytes) → IsFilled s → 1 ≤ length s
size_pos [] h = absurd (h refl)
size_pos (v ∷ s) h = omega arith

mul_pos : (a b : ℕ) → 1 ≤ a → 1 ≤ b → a ≤ a * b
mul_pos a b h k = omega (arith, mul-le-mul_left a k, mul-one a)

sizes_pos : (sets : List (List Bytes)) → All IsFilled sets → 1 ≤ sizes sets
sizes_pos [] h = omega arith
sizes_pos (s ∷ sets) h =
    omega
      (arith, size_pos s h.0, mul_pos (length s) (sizes sets) (size_pos s h.0) (sizes_pos sets h.1))

count_combos-sizes :
    (limit total : ℕ) (sets : List (List Bytes))
    → limit ≤ max_requests
    → 1 ≤ total
    → All IsFilled sets
    → min limit (count_combos total sets) ≡ min limit (total * sizes sets)
unfolding count_combos
count_combos-sizes limit total [] hl ht h = ap (min limit) (sym (mul-one total))
count_combos-sizes limit total (s ∷ sets) hl ht h =
    let grows = mul_pos total (length s) ht (size_pos s h.0) in
    let more =
      mul_pos (total * length s) (sizes sets) (omega (arith, grows, ht)) (sizes_pos sets h.1) in
    let assoc = mul_assoc total (length s) (sizes sets) in
    let rest = count_combos-sizes limit (total * length s) sets hl (omega (arith, grows, ht)) h.1 in
    elim (Bool-cases (ltb max_requests (total * length s))) [
      | inl e ↦ rw e (ground (arith, more, assoc, hl))
      | inr e ↦ rw e (rest ∙ ap (min limit) assoc)
    ]

All-take : (n : ℕ) (sets : List (List Bytes)) → All IsFilled sets → All IsFilled (take n sets)
All-take zero sets h = tt
All-take (suc n) [] h = tt
All-take (suc n) (s ∷ sets) h = (h.0, All-take n sets h.1)

-- the sets that are used are a prefix of the sets
usable-IsFilled :
    (n : ℕ) (sets usable : List (List Bytes))
    → usable_sets n sets ≡ some usable
    → All IsFilled sets
    → All IsFilled usable
unfolding usable_sets
usable-IsFilled n sets usable e h =
    elim (Bool-cases (ltb (length (take n sets)) n || is_empty (take n sets))) [
      | inl c ↦ absurd (ground arith)
      | inr c ↦
          let same : take n sets ≡ usable = ground arith in
          subst (All IsFilled) same (All-take n sets h)
    ]

positions_ne : (bases : List Bytes) → bases ≢ [] → (length bases == 0) ≡ false
positions_ne [] h = absurd (h refl)
positions_ne (b ∷ bases) h = ground arith

at_start : (n limit m : ℕ) → n ≡ min (limit - 0) m → n ≡ min limit m
at_start n limit m h = omega (arith, h)

module _ (bases : List Bytes) (sets : List (List Bytes)) (url_encode : Bool) (limit : ℕ)
    (h : bases ≢ []) where
  length-sniper :
      length (generate_jobs sniper bases sets url_encode limit)
      ≡ min limit (count_jobs sniper (length bases) sets)
  unfolding generate_jobs count_jobs
  length-sniper = rw (positions_ne bases h) (
      at_start _ limit _
        (length-sniper_rows url_encode limit bases (first_set sets) 0 (length bases) 0))

  length-ram :
      length (generate_jobs battering_ram bases sets url_encode limit)
      ≡ min limit (count_jobs battering_ram (length bases) sets)
  unfolding generate_jobs count_jobs
  length-ram =
      rw (positions_ne bases h)
        (at_start _ limit _ (length-ram_jobs url_encode limit (length bases) (first_set sets) 0))

  length-pitchfork :
      length (generate_jobs pitchfork bases sets url_encode limit)
      ≡ min limit (count_jobs pitchfork (length bases) sets)
  unfolding generate_jobs count_jobs
  length-pitchfork =
      rw (positions_ne bases h) (elim (Option-cases (usable_sets (length bases) sets)) [
        | inl e ↦ rw (e, generate_jobs) (omega arith)
        | inr (usable, e) ↦
            rw (e, generate_jobs)
              (at_start _ limit _ (length-combo_jobs url_encode limit (zip_all usable) 0)
                ∙ ap (min limit) (length-zip_all usable))
      ])

  -- With at least one position, and for every type of attack but the cluster bomb, as many jobs are
  -- generated as count_jobs says, up to the limit.
  pub length-generate_jobs :
      (attack_type : AttackType)
      → attack_type ≢ cluster_bomb
      → length (generate_jobs attack_type bases sets url_encode limit)
        ≡ min limit (count_jobs attack_type (length bases) sets)
  length-generate_jobs sniper c = length-sniper
  length-generate_jobs battering_ram c = length-ram
  length-generate_jobs pitchfork c = length-pitchfork
  length-generate_jobs cluster_bomb c = absurd (c refl)

  -- A cluster bomb also has as many jobs as count_jobs says, up to the limit, if there is at least one
  -- position, no payload set is empty and the limit is at most max_requests.
  pub length-cluster_bomb :
      All IsFilled sets
      → limit ≤ max_requests
      → length (generate_jobs cluster_bomb bases sets url_encode limit)
        ≡ min limit (count_jobs cluster_bomb (length bases) sets)
  unfolding generate_jobs count_jobs
  length-cluster_bomb filled hl =
      rw (positions_ne bases h) (elim (Option-cases (usable_sets (length bases) sets)) [
        | inl e ↦ rw (e, generate_jobs) (omega arith)
        | inr (usable, e) ↦
            rw (e, generate_jobs)
              (at_start _ limit _ (length-combo_jobs url_encode limit (product usable) 0)
                ∙ ap (min limit) (length-product usable ∙ sym (one-mul (sizes usable)))
                ∙ sym (
                    count_combos-sizes limit 1 usable hl (omega arith)
                      (usable-IsFilled (length bases) sets usable e filled)))
      ])
