-- ===== src/Intruder/Template/Positions.antt =====
-- What the parts of a template are, and what a request is built from.
use mathlib.Core.Path.{ap₂}
use brup_http_proxy.Prelude.{
  ℕ, ◌+◌, ◌%◌, ◌≤◌, ◌≡◌, ◌≢◌, refl, sym, ◌∙◌, ap, false, not, List, [], ◌∷◌, ◌++◌, map, arith,
  append_assoc, append-nil, Bool-cases, inl, inr, length, keep, ◌==◌, eq_of_==,
}
use brup_http_proxy.Bytes.{Bytes, split_by, split_on, push_part}
use brup_http_proxy.Result.{ok}
use brup_http_proxy.Intruder.Template.{
  marker, evens, odds, parse_positions, build_from, build_request,
}

-- A base value between two markers.
abbrev pub marked : Bytes → Bytes
marked base = marker ∷ (base ++ marker ∷ [])

-- the template without its markers
abbrev pub unmarked : Bytes → Bytes
unmarked = keep (λ x. not (x == marker))

abbrev glue : List Bytes → Bytes
glue [] = []
glue (p ∷ []) = p
glue (p ∷ q ∷ ps) = p ++ (marker ∷ glue (q ∷ ps))

abbrev concat : List Bytes → Bytes
concat [] = []
concat (p ∷ ps) = p ++ concat ps

glue-push_part : (x : ℕ) (ps : List Bytes) → ps ≢ [] → glue (push_part x ps) ≡ x ∷ glue ps
glue-push_part x [] h = absurd (h refl)
glue-push_part x (p ∷ []) h = refl
glue-push_part x (p ∷ q ∷ ps) h = refl

concat-push_part : (x : ℕ) (ps : List Bytes) → ps ≢ [] → concat (push_part x ps) ≡ x ∷ concat ps
concat-push_part x [] h = absurd (h refl)
concat-push_part x (p ∷ ps) h = refl

push_part-ne_nil : (x : ℕ) (ps : List Bytes) → push_part x ps ≢ []
push_part-ne_nil x [] e = cc e
push_part-ne_nil x (p ∷ ps) e = cc e

split_on-ne_nil : (c : ℕ) (s : Bytes) → split_on c s ≢ []
unfolding split_on
split_on-ne_nil c [] = λ e. cc e
split_on-ne_nil c (x ∷ s) = elim (Bool-cases (x == c)) [
  | inl e ↦ rw (e, split_by) (λ p. cc p)
  | inr e ↦ rw (e, split_by) (push_part-ne_nil x (split_by (λ y. y == c) s))
]

glue_cons : (ps : List Bytes) → ps ≢ [] → glue ([] ∷ ps) ≡ marker ∷ glue ps
glue_cons [] h = absurd (h refl)
glue_cons (p ∷ ps) h = refl

glue-split_on : (s : Bytes) → glue (split_on marker s) ≡ s
unfolding split_on
glue-split_on [] = refl
glue-split_on (x ∷ s) = elim (Bool-cases (x == marker)) [
  | inl e ↦
      rw (e, split_by)
        (glue_cons (split_on marker s) (split_on-ne_nil marker s)
          ∙ ap₂ (λ c t. c ∷ t) (sym (eq_of_== x marker e)) (glue-split_on s))
  | inr e ↦
      rw (e, split_by)
        (glue-push_part x (split_on marker s) (split_on-ne_nil marker s)
          ∙ ap (λ t. x ∷ t) (glue-split_on s))
]

concat-split_on : (s : Bytes) → concat (split_on marker s) ≡ unmarked s
unfolding split_on
concat-split_on [] = refl
concat-split_on (x ∷ s) = elim (Bool-cases (x == marker)) [
  | inl e ↦ rw (e, split_by, keep) (concat-split_on s)
  | inr e ↦
      rw (e, split_by, keep)
        (concat-push_part x (split_on marker s) (split_on-ne_nil marker s)
          ∙ ap (λ t. x ∷ t) (concat-split_on s))
]

-- an odd number of parts
abbrev IsOdd : List Bytes → Type 0
IsOdd [] = ⊥
IsOdd (p ∷ []) = Unit
IsOdd (p ∷ q ∷ ps) = IsOdd ps

IsOdd-of_mod : (ps : List Bytes) → (length ps % 2 == 0) ≡ false → IsOdd ps
IsOdd-of_mod [] h = ground arith
IsOdd-of_mod (p ∷ []) h = tt
IsOdd-of_mod (p ∷ q ∷ ps) h = IsOdd-of_mod ps (ground arith)

build_cons :
    (p v : Bytes) (ls vs : List Bytes) (rest : Bytes)
    → build_request ls vs ≡ ok rest
    → build_from p ls (v ∷ vs) ≡ ok (p ++ (v ++ rest))
unfolding build_request build_from
build_cons p v [] vs rest e = cc e
build_cons p v (l ∷ ls) vs rest e = rw e

build_marked :
    (ps : List Bytes) → IsOdd ps → build_request (evens ps) (map marked (odds ps)) ≡ ok (glue ps)
unfolding build_request evens odds
build_marked [] h = elim h [ ]
build_marked (p ∷ []) h = refl
build_marked (p ∷ q ∷ []) h = elim h [ ]
build_marked (p ∷ q ∷ r ∷ ps) h =
    build_cons p (marked q) (evens (r ∷ ps)) (map marked (odds (r ∷ ps))) (glue (r ∷ ps))
      (build_marked (r ∷ ps) h)
    ∙ ap (λ t. ok (p ++ (marker ∷ t))) (append_assoc q (marker ∷ []) (glue (r ∷ ps)))

build_plain : (ps : List Bytes) → IsOdd ps → build_request (evens ps) (odds ps) ≡ ok (concat ps)
unfolding build_request evens odds
build_plain [] h = elim h [ ]
build_plain (p ∷ []) h = rw append-nil
build_plain (p ∷ q ∷ []) h = elim h [ ]
build_plain (p ∷ q ∷ r ∷ ps) h =
    build_cons p q (evens (r ∷ ps)) (odds (r ∷ ps)) (concat (r ∷ ps)) (build_plain (r ∷ ps) h)

length-evens : (ps : List Bytes) → IsOdd ps → length (evens ps) ≡ length (odds ps) + 1
unfolding evens odds
length-evens [] h = elim h [ ]
length-evens (p ∷ []) h = omega arith
length-evens (p ∷ q ∷ ps) h = omega (arith, length-evens ps h)

-- a successful parse is the parts of an odd split
record Parsed (template : Bytes) (literals bases : List Bytes) : Type 0 where
  odd : IsOdd (split_on marker template)
  literals_eq : literals ≡ evens (split_on marker template)
  bases_eq : bases ≡ odds (split_on marker template)

parsed :
    (template : Bytes) (literals bases : List Bytes)
    → parse_positions template ≡ ok (literals, bases)
    → Parsed template literals bases
unfolding parse_positions
parsed template literals bases e = elim (Bool-cases (length (split_on marker template) % 2 == 0)) [
  | inl even ↦ absurd (ground arith)
  | inr odd ↦ record {
    odd = IsOdd-of_mod (split_on marker template) odd;
    literals_eq = ground arith;
    bases_eq = ground arith;
  }
]

module _ (template : Bytes) (literals bases : List Bytes)
    (e : parse_positions template ≡ ok (literals, bases)) where
  -- Putting each base value back between markers rebuilds the template exactly, for every template that
  -- parses.
  pub build_request-marked : build_request literals (map marked bases) ≡ ok template
  build_request-marked =
      let p = parsed template literals bases e in
      rw (p.literals_eq, p.bases_eq)
        (build_marked (split_on marker template) p.odd ∙ ap ok (glue-split_on template))

  -- Building the request from the base values gives the template without its markers, for every
  -- template that parses.
  pub build_request-bases : build_request literals bases ≡ ok (unmarked template)
  build_request-bases =
      let p = parsed template literals bases e in
      rw (p.literals_eq, p.bases_eq)
        (build_plain (split_on marker template) p.odd ∙ ap ok (concat-split_on template))

  pub length-literals : length literals ≡ length bases + 1
  length-literals =
      let p = parsed template literals bases e in
      rw (p.literals_eq, p.bases_eq) (length-evens (split_on marker template) p.odd)

build_from_total :
    (p : Bytes) (ls vs : List Bytes)
    → length vs ≤ length ls
    → (r : Bytes) × (build_from p ls vs ≡ ok r)
unfolding build_from
build_from_total p ls [] h = (p, refl)
build_from_total p [] (v ∷ vs) h = elim h [ ]
build_from_total p (l ∷ ls) (v ∷ vs) h =
    let (r, e) = build_from_total l ls vs (omega arith) in (p ++ (v ++ r), rw e)

-- With one literal more than values, a request is built.
pub build_request_total :
    (literals values : List Bytes)
    → length literals ≡ length values + 1
    → (r : Bytes) × (build_request literals values ≡ ok r)
unfolding build_request
build_request_total [] values h = absurd (omega arith)
build_request_total (l ∷ ls) values h = build_from_total l ls values (omega arith)
