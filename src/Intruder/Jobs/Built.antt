-- ===== src/Intruder/Jobs/Built.antt =====
-- The requests of an attack: what `parse_positions` and `generate_jobs` give `build_request`.
use brup_http_proxy.Prelude.{ℕ, suc, ◌+◌, ◌≡◌, Bool, List, [], ◌∷◌, arith, All, length}
use brup_http_proxy.Bytes.{Bytes}
use brup_http_proxy.Result.{ok}
use brup_http_proxy.Intruder.Template.{parse_positions, build_request}
use brup_http_proxy.Intruder.Template.Positions.{length-literals, build_request_total}
use brup_http_proxy.Intruder.Jobs.{AttackType, Job, generate_jobs}
use brup_http_proxy.Intruder.Jobs.Numbers.{Numbered, generate_jobs-Numbered}

-- A request is built for the job.
abbrev pub Buildable : List Bytes → Job → Type 0
Buildable literals job = (raw : Bytes) × (build_request literals job.values ≡ ok raw)

Buildable-of_Numbered :
    (literals : List Bytes) (n limit index : ℕ) (jobs : List Job)
    → length literals ≡ n + 1
    → Numbered n limit index jobs
    → All (Buildable literals) jobs
Buildable-of_Numbered literals n limit index [] e h = tt
Buildable-of_Numbered literals n limit index (job ∷ jobs) e (i, below, size, rest) = (
  build_request_total literals job.values (omega (arith, e, size)),
  Buildable-of_Numbered literals n limit (suc index) jobs e rest,
)

-- For a template that parses, every job of every type of attack builds a request: no job fails on an
-- index out of range.
pub generate_jobs-Buildable :
    (template : Bytes) (literals bases : List Bytes) (attack_type : AttackType)
    (sets : List (List Bytes)) (url_encode : Bool) (limit : ℕ)
    → parse_positions template ≡ ok (literals, bases)
    → All (Buildable literals) (generate_jobs attack_type bases sets url_encode limit)
generate_jobs-Buildable template literals bases attack_type sets url_encode limit e =
    Buildable-of_Numbered literals (length bases) limit 0
      (generate_jobs attack_type bases sets url_encode limit)
      (length-literals template literals bases e)
      (generate_jobs-Numbered attack_type bases sets url_encode limit)
