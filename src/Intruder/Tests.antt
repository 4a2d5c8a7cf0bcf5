-- ===== src/Intruder/Tests.antt =====
-- Runs of the intruder's functions, and the theorems at concrete inputs.
use brup_http_proxy.Prelude.{
  some, inl, ◌≡◌, ◌≢◌, refl, true, false, not, ◌||◌, List, [], ◌∷◌, ◌++◌, map, keep, any, is_empty,
  All, length, min, if◌then◌else◌,
}
use brup_http_proxy.Bytes.{Bytes, codes, split_on}
use brup_http_proxy.Bytes.Int.{decimal}
use brup_http_proxy.Result.{ok}
use brup_http_proxy.Intruder.Template.{
  parse_positions, build_request, is_length_line, length_line, fix_lines, fix_content_length,
  url_encode_unsafe,
}
use brup_http_proxy.Intruder.Template.Positions.{marked, build_request-marked}
use brup_http_proxy.Intruder.Template.Length.{length_lines-fix_lines}
use brup_http_proxy.Intruder.Jobs.{
  sniper, pitchfork, cluster_bomb, Job, enc, generate_jobs, count_jobs,
}
use brup_http_proxy.Intruder.Attack.{
  running, started, is_running, is_paused, stop_attack, completed, cancelled, ended_status, pause,
  resume, stop, end_of_run, run, worker_step,
}
use brup_http_proxy.Intruder.Attack.Life.{NotStuck, run-NotStuck, worker_step-stop}
use brup_http_proxy.Intruder.Jobs.Numbers.{Numbered, generate_jobs-Numbered}
use brup_http_proxy.Intruder.Jobs.Count.{length-generate_jobs}
use brup_http_proxy.Intruder.Jobs.Built.{Buildable, generate_jobs-Buildable}

-- `a§X§b§Y§c`
abbrev template : Bytes
template = codes "a" ++ (marked (codes "X") ++ (codes "b" ++ (marked (codes "Y") ++ codes "c")))

abbrev literals : List Bytes
literals = codes "a" ∷ codes "b" ∷ codes "c" ∷ []

abbrev bases : List Bytes
bases = codes "X" ∷ codes "Y" ∷ []

abbrev sets : List (List Bytes)
sets = (codes "1" ∷ codes "2" ∷ []) ∷ (codes "p q" ∷ codes "r" ∷ codes "s" ∷ []) ∷ []

template_parses : parse_positions template ≡ ok (literals, bases)
unfolding parse_positions split_on
template_parses = refl

bases-ne_nil : bases ≢ []
bases-ne_nil e = cc e

encoded : url_encode_unsafe (codes "p q/~") ≡ codes "p%20q%2F~"
unfolding url_encode_unsafe
encoded = refl

fixed :
    fix_content_length
      (codes "POST / H\r\nContent-Length: 9\r\nA: b\r\ncontent-length: 1\r\n\r\nxyz")
    ≡ codes "POST / H\r\nContent-Length: 3\r\nA: b\r\n\r\nxyz"
unfolding fix_content_length fix_lines is_length_line length_line decimal
fixed = refl

sniper_values :
    map (λ (job : Job). job.values) (generate_jobs sniper bases sets true 3)
    ≡ (codes "1" ∷ codes "Y" ∷ [])
      ∷ (codes "2" ∷ codes "Y" ∷ [])
      ∷ (codes "X" ∷ codes "1" ∷ [])
      ∷ []
unfolding generate_jobs enc
sniper_values = refl

cluster_values :
    map (λ (job : Job). job.values) (generate_jobs cluster_bomb bases sets true 4)
    ≡ (codes "1" ∷ codes "p%20q" ∷ [])
      ∷ (codes "1" ∷ codes "r" ∷ [])
      ∷ (codes "1" ∷ codes "s" ∷ [])
      ∷ (codes "2" ∷ codes "p%20q" ∷ [])
      ∷ []
unfolding generate_jobs enc
cluster_values = refl

build_request-marked_example : build_request literals (map marked bases) ≡ ok template
build_request-marked_example = build_request-marked template literals bases template_parses

abbrev head : List Bytes
head =
    codes "POST / HTTP/1.1"
    ∷ codes "content-length: 7"
    ∷ codes "A: b"
    ∷ codes "Content-Length: 1"
    ∷ []

length_lines-fix_lines_example : keep is_length_line (fix_lines false (codes "xyz") head) ≡ (
    if any is_length_line head || not (is_empty (codes "xyz"))
    then length_line (codes "xyz") ∷ []
    else [])
length_lines-fix_lines_example = length_lines-fix_lines (codes "xyz") head

length-generate_jobs_example :
    length (generate_jobs pitchfork bases sets true 10)
    ≡ min 10 (count_jobs pitchfork (length bases) sets)
length-generate_jobs_example =
    length-generate_jobs bases sets true 10 bases-ne_nil pitchfork (λ e. cc e)

generate_jobs-Numbered_example :
    Numbered (length bases) 4 0 (generate_jobs cluster_bomb bases sets true 4)
generate_jobs-Numbered_example = generate_jobs-Numbered cluster_bomb bases sets true 4

generate_jobs-Buildable_example : All (Buildable literals) (generate_jobs sniper bases sets true 3)
generate_jobs-Buildable_example =
    generate_jobs-Buildable template literals bases sniper sets true 3 template_parses

-- An attack that is paused when its run ends can be resumed, and then counts as running although its
-- task has ended.
resumed_after_end :
    run (pause ∷ end_of_run completed ∷ resume ∷ []) started
    ≡ record { status = running; gate = true; task_done = true; cancelling = false }
unfolding run is_running is_paused ended_status
resumed_after_end = refl

run-NotStuck_example : NotStuck (run (pause ∷ stop ∷ end_of_run cancelled ∷ []) started)
run-NotStuck_example = run-NotStuck (pause ∷ stop ∷ end_of_run cancelled ∷ []) started (inl refl)

worker_step-stop_example :
    worker_step (run (resume ∷ end_of_run completed ∷ pause ∷ []) (stop_attack started).1)
    ≡ some false
worker_step-stop_example = worker_step-stop (resume ∷ end_of_run completed ∷ pause ∷ []) started
