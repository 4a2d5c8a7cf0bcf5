-- ===== src/Intruder/Attack/Life.antt =====
-- What an attack can become.
use mathlib.Core.Path.{subst}
use brup_http_proxy.Prelude.{
  ◌≡◌, ◌⊎◌, refl, sym, ap, Bool, true, false, not, ◌||◌, some, List, [], ◌∷◌, arith, Bool-cases,
  inl, inr, if◌then◌else◌,
}
use brup_http_proxy.Intruder.Attack.{
  Status, running, paused, finished, stopped, error, Attack, is_running, is_paused, pause_attack,
  resume_attack, stop_attack, Outcome, completed, cancelled, raised, ended_status, end_run,
  worker_step, Action, pause, resume, stop, end_of_run, run,
}

-- Workers wait only while the attack is paused, or have all ended.
abbrev pub NotStuck : Attack → Type 0
NotStuck a = (a.gate ≡ true) ⊎ ((is_paused a.status ≡ true) ⊎ (a.task_done ≡ true))

pause-NotStuck : (a : Attack) → NotStuck a → NotStuck (pause_attack a).1
unfolding pause_attack is_paused
pause-NotStuck a h = elim (Bool-cases (is_running a.status)) [
  | inl e ↦ rw (e, pause_attack) (inr (inl refl))
  | inr e ↦ rw (e, pause_attack) h
]

resume-NotStuck : (a : Attack) → NotStuck a → NotStuck (resume_attack a).1
unfolding resume_attack
resume-NotStuck a h = elim (Bool-cases (is_paused a.status)) [
  | inl e ↦ rw (e, resume_attack) (inl refl)
  | inr e ↦ rw (e, resume_attack) h
]

end-NotStuck : (o : Outcome) (a : Attack) → NotStuck a → NotStuck (end_run o a)
unfolding end_run
end-NotStuck o a h = elim (Bool-cases a.task_done) [
  | inl e ↦ rw (e, end_run) (inr (inr refl))
  | inr e ↦ rw (e, end_run) (inr (inr refl))
]

-- Whatever the operator does and however the run ends, workers are held back only while the attack is
-- paused, or after its task has ended.
pub run-NotStuck : (actions : List Action) (a : Attack) → NotStuck a → NotStuck (run actions a)
unfolding run stop_attack
run-NotStuck [] a h = h
run-NotStuck (pause ∷ actions) a h = run-NotStuck actions (pause_attack a).1 (pause-NotStuck a h)
run-NotStuck (resume ∷ actions) a h = run-NotStuck actions (resume_attack a).1 (resume-NotStuck a h)
run-NotStuck (stop ∷ actions) a h = run-NotStuck actions (stop_attack a).1 (inl refl)
run-NotStuck (end_of_run o ∷ actions) a h = run-NotStuck actions (end_run o a) (end-NotStuck o a h)

-- the attack neither runs nor waits to run on
abbrev pub is_over : Status → Bool
is_over s = not (is_running s || is_paused s)

pause-over : (a : Attack) → is_over a.status ≡ true → is_over (pause_attack a).1.status ≡ true
unfolding pause_attack
pause-over a h = ground (arith, h)

resume-over : (a : Attack) → is_over a.status ≡ true → is_over (resume_attack a).1.status ≡ true
unfolding resume_attack
resume-over a h = ground (arith, h)

ended_status-over :
    (o : Outcome) (s : Status) → is_over s ≡ true → is_over (ended_status o s) ≡ true
unfolding ended_status is_running is_paused
ended_status-over completed running h = absurd (cc h)
ended_status-over completed paused h = absurd (cc h)
ended_status-over completed finished h = refl
ended_status-over completed stopped h = refl
ended_status-over completed error h = refl
ended_status-over cancelled s h = refl
ended_status-over raised s h = refl

end-over :
    (o : Outcome) (a : Attack) → is_over a.status ≡ true → is_over (end_run o a).status ≡ true
unfolding end_run
end-over o a h = ground (arith, h, ended_status-over o a.status h)

stop-over : (a : Attack) → is_over (stop_attack a).1.status ≡ true
unfolding stop_attack is_running is_paused
stop-over a = refl

-- An attack that is finished, stopped or failed never runs or pauses again, whatever the operator does.
pub run-is_over :
    (actions : List Action) (a : Attack)
    → is_over a.status ≡ true
    → is_over (run actions a).status ≡ true
unfolding run
run-is_over [] a h = h
run-is_over (pause ∷ actions) a h = run-is_over actions (pause_attack a).1 (pause-over a h)
run-is_over (resume ∷ actions) a h = run-is_over actions (resume_attack a).1 (resume-over a h)
run-is_over (stop ∷ actions) a h = run-is_over actions (stop_attack a).1 (stop-over a)
run-is_over (end_of_run o ∷ actions) a h = run-is_over actions (end_run o a) (end-over o a h)

-- The gate is open, and workers end when they pass it.
abbrev Halted : Attack → Type 0
Halted a = (a.gate ≡ true) × ((a.status ≡ stopped) ⊎ (a.status ≡ error))

pause-Halted : (a : Attack) → Halted a → Halted (pause_attack a).1
unfolding pause_attack is_running
pause-Halted a (g, inl h) = rw (h, pause_attack) (g, inl refl)
pause-Halted a (g, inr h) = rw (h, pause_attack) (g, inr refl)

resume-Halted : (a : Attack) → Halted a → Halted (resume_attack a).1
unfolding resume_attack is_paused
resume-Halted a (g, inl h) = rw (h, resume_attack) (g, inl refl)
resume-Halted a (g, inr h) = rw (h, resume_attack) (g, inr refl)

Halted-ended_status :
    (o : Outcome) (s : Status)
    → (s ≡ stopped) ⊎ (s ≡ error)
    → (ended_status o s ≡ stopped) ⊎ (ended_status o s ≡ error)
unfolding ended_status is_running
Halted-ended_status completed s (inl h) = inl (rw h refl)
Halted-ended_status completed s (inr h) = inr (rw h refl)
Halted-ended_status cancelled s h = inl refl
Halted-ended_status raised s h = inr refl

abbrev ended : Outcome → Attack → Attack
ended o a = record {
  status = ended_status o a.status;
  gate = a.gate;
  task_done = true;
  cancelling = a.cancelling;
}

end-Halted : (o : Outcome) (a : Attack) → Halted a → Halted (end_run o a)
unfolding end_run
end-Halted o a (g, h) = elim (Bool-cases a.task_done) [
  | inl e ↦ subst Halted (sym (ap (λ b. if b then a else ended o a) e)) (g, h)
  | inr e ↦
      subst Halted (sym (ap (λ b. if b then a else ended o a) e))
        (g, Halted-ended_status o a.status h)
]

run-Halted : (actions : List Action) (a : Attack) → Halted a → Halted (run actions a)
unfolding run stop_attack
run-Halted [] a h = h
run-Halted (pause ∷ actions) a h = run-Halted actions (pause_attack a).1 (pause-Halted a h)
run-Halted (resume ∷ actions) a h = run-Halted actions (resume_attack a).1 (resume-Halted a h)
run-Halted (stop ∷ actions) a h = run-Halted actions (stop_attack a).1 (refl, inl refl)
run-Halted (end_of_run o ∷ actions) a h = run-Halted actions (end_run o a) (end-Halted o a h)

Halted-worker_step : (a : Attack) → Halted a → worker_step a ≡ some false
unfolding worker_step
Halted-worker_step a (g, inl h) = rw (g, worker_step) (rw h refl)
Halted-worker_step a (g, inr h) = rw (g, worker_step) (rw h refl)

-- After a stop no worker waits or runs another job, whatever the operator does later and however the
-- run ends.
pub worker_step-stop :
    (actions : List Action) (a : Attack) → worker_step (run actions (stop_attack a).1) ≡ some false
unfolding stop_attack
worker_step-stop actions a =
    Halted-worker_step (run actions (stop_attack a).1)
      (run-Halted actions (stop_attack a).1 (refl, inl refl))
