-- ===== src/Intruder/Jobs.antt =====
-- `AttackType`, `Job`, `generate_jobs` and `count_jobs` of backend/brup/intruder.py. A payload is a text,
-- the list of its code points; the generator is the list of the jobs that it yields.
pub mod Numbers
pub mod Count
pub mod Built
use brup_http_proxy.Prelude.{
  ℕ, zero, suc, ◌+◌, ◌-◌, ◌*◌, ◌%◌, min, Bool, true, false, ◌&&◌, ◌||◌, is_empty, Option, none,
  some, List, [], ◌∷◌, ◌++◌, map, ltb, leb, if◌then◌else◌, take, length, set, replicate, ◌==◌,
}
use brup_http_proxy.Bytes.{Bytes, utf8}
use brup_http_proxy.Intruder.Template.{url_encode_unsafe}

pub data AttackType : Type 0 where
  sniper battering_ram pitchfork cluster_bomb : AttackType

pub record Job : Type 0 where
  pub index : ℕ
  pub values : List Bytes
  pub display : List Bytes
  pub position : Option ℕ

abbrev pub max_requests : ℕ
max_requests = 250000

-- `value.encode("utf-8", "surrogateescape")`: an escaped byte is that byte
unfoldable pub encode_escaped : Bytes → Bytes
unfolding utf8
encode_escaped [] = []
encode_escaped (c ∷ s) =
    (if leb 0xdc80 c && leb c 0xdcff then (c - 0xdc00) ∷ [] else utf8 c) ++ encode_escaped s

-- `enc`
unfoldable pub enc : Bool → Bytes → Bytes
unfolding encode_escaped url_encode_unsafe
enc url_encode value =
    let raw = encode_escaped value in if url_encode then url_encode_unsafe raw else raw

-- `sets[0] if sets else []`
unfoldable pub first_set : List (List Bytes) → List Bytes
first_set [] = []
first_set (s ∷ sets) = s

module _ (url_encode : Bool) (limit : ℕ) where
  -- The inner loop of a sniper attack; `next` goes on with the next position. At the limit the generator
  -- returns.
  unfoldable pub sniper_row : List Bytes → ℕ → List Bytes → ℕ → (ℕ → List Job) → List Job
  sniper_row bases pos [] index next = next index
  sniper_row bases pos (value ∷ payloads) index next =
      let rest = sniper_row bases pos payloads (suc index) next in
      if leb limit index
      then []
      else record {
        index = index;
        values = set bases pos (enc url_encode value);
        display = value ∷ [];
        position = some pos;
      }
        ∷ rest

  -- the outer loop, over `count` positions from `pos`
  unfoldable pub sniper_rows : List Bytes → List Bytes → ℕ → ℕ → ℕ → List Job
  unfolding sniper_row
  sniper_rows bases payloads pos zero index = []
  sniper_rows bases payloads pos (suc count) index =
      sniper_row bases pos payloads index (sniper_rows bases payloads (suc pos) count)

  unfoldable pub ram_jobs : ℕ → List Bytes → ℕ → List Job
  ram_jobs n [] index = []
  ram_jobs n (value ∷ payloads) index =
      let rest = ram_jobs n payloads (suc index) in
      if leb limit index
      then []
      else record {
        index = index;
        values = replicate n (enc url_encode value);
        display = value ∷ [];
        position = none;
      }
        ∷ rest

  -- the loop over the combinations of a pitchfork or a cluster bomb
  unfoldable pub combo_jobs : List (List Bytes) → ℕ → List Job
  combo_jobs [] index = []
  combo_jobs (combo ∷ combos) index =
      let rest = combo_jobs combos (suc index) in
      if leb limit index
      then []
      else record {
        index = index;
        values = map (enc url_encode) combo;
        display = combo;
        position = none;
      }
        ∷ rest

-- `zip(*sets)`
unfoldable pub zip_with : List Bytes → List (List Bytes) → List (List Bytes)
zip_with [] combos = []
zip_with (v ∷ s) [] = []
zip_with (v ∷ s) (c ∷ combos) = (v ∷ c) ∷ zip_with s combos

unfoldable pub zip_all : List (List Bytes) → List (List Bytes)
unfolding zip_with
zip_all [] = []
zip_all (s ∷ []) = map (λ v. v ∷ []) s
zip_all (s ∷ t ∷ sets) = zip_with s (zip_all (t ∷ sets))

-- `itertools.product(*sets)`
unfoldable pub spread : List Bytes → List (List Bytes) → List (List Bytes)
spread [] combos = []
spread (v ∷ s) combos = map (λ c. v ∷ c) combos ++ spread s combos

unfoldable pub product : List (List Bytes) → List (List Bytes)
unfolding spread
product [] = [] ∷ []
product (s ∷ sets) = spread s (product sets)

-- `usable = sets[:n]`, or `none` if the attack cannot use them
unfoldable pub usable_sets : ℕ → List (List Bytes) → Option (List (List Bytes))
usable_sets n sets =
    let usable = take n sets in
    if ltb (length usable) n || is_empty usable then none else some usable

unfoldable pub generate_jobs : AttackType → List Bytes → List (List Bytes) → Bool → ℕ → List Job
unfolding sniper_rows ram_jobs combo_jobs zip_all product usable_sets first_set
generate_jobs sniper bases sets url_encode limit =
    sniper_rows url_encode limit bases (first_set sets) 0 (length bases) 0
generate_jobs battering_ram bases sets url_encode limit =
    ram_jobs url_encode limit (length bases) (first_set sets) 0
generate_jobs pitchfork bases sets url_encode limit = elim (usable_sets (length bases) sets) [
  | none ↦ []
  | some usable ↦ combo_jobs url_encode limit (zip_all usable) 0
]
generate_jobs cluster_bomb bases sets url_encode limit = elim (usable_sets (length bases) sets) [
  | none ↦ []
  | some usable ↦ combo_jobs url_encode limit (product usable) 0
]

-- `min(len(s) for s in usable)`
unfoldable pub shortest : List (List Bytes) → ℕ
shortest [] = 0
shortest (s ∷ []) = length s
shortest (s ∷ t ∷ sets) = min (length s) (shortest (t ∷ sets))

-- the loop over the sets, with the running product
unfoldable pub count_combos : ℕ → List (List Bytes) → ℕ
count_combos total [] = total
count_combos total (s ∷ sets) =
    let rest = count_combos (total * length s) sets in
    if ltb max_requests (total * length s) then max_requests else rest

unfoldable pub count_jobs : AttackType → ℕ → List (List Bytes) → ℕ
unfolding first_set usable_sets shortest count_combos
count_jobs attack_type positions sets = if positions == 0 then 0 else elim attack_type [
  | sniper ↦ positions * length (first_set sets)
  | battering_ram ↦ length (first_set sets)
  | pitchfork ↦ elim (usable_sets positions sets) [ none ↦ 0 | some usable ↦ shortest usable ]
  | cluster_bomb ↦ elim (usable_sets positions sets) [
    | none ↦ 0
    | some usable ↦ count_combos 1 usable
  ]
]
