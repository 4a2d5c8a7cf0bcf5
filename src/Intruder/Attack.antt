-- ===== src/Intruder/Attack.antt =====
-- The life of an attack (backend/brup/intruder.py): `pause`, `resume` and `stop`, the end of `_run`, and
-- what a worker does with a job. Writing to the database and publishing on the hub are left out.
pub mod Life
use brup_http_proxy.Prelude.{
  ℕ, Bool, true, false, not, ◌&&◌, ◌||◌, Option, none, some, List, [], ◌∷◌, if◌then◌else◌,
}

pub data Status : Type 0 where
  running paused finished stopped error : Status

-- `gate` is the event `_pause`, on which workers wait while it is clear; `task_done` and `cancelling` are
-- the state of the task of `_run`.
pub record Attack : Type 0 where
  pub status : Status
  pub gate : Bool
  pub task_done : Bool
  pub cancelling : Bool

abbrev pub started : Attack
started = record { status = running; gate = true; task_done = false; cancelling = false }

unfoldable pub is_running : Status → Bool
is_running running = true
is_running paused = false
is_running finished = false
is_running stopped = false
is_running error = false

unfoldable pub is_paused : Status → Bool
is_paused running = false
is_paused paused = true
is_paused finished = false
is_paused stopped = false
is_paused error = false

unfoldable pub pause_attack : Attack → Bool × Attack
unfolding is_running
pause_attack a = if not (is_running a.status) then (false, a) else (
  true,
  record { status = paused; gate = false; task_done = a.task_done; cancelling = a.cancelling },
)

unfoldable pub resume_attack : Attack → Bool × Attack
unfolding is_paused
resume_attack a = if not (is_paused a.status) then (false, a) else (
  true,
  record { status = running; gate = true; task_done = a.task_done; cancelling = a.cancelling },
)

unfoldable pub stop_attack : Attack → Bool × Attack
stop_attack a = (
  true,
  record {
    status = stopped;
    gate = true;
    task_done = a.task_done;
    cancelling = a.cancelling || not a.task_done;
  },
)

-- how the workers of `_run` end
pub data Outcome : Type 0 where
  completed cancelled raised : Outcome

unfoldable pub ended_status : Outcome → Status → Status
unfolding is_running
ended_status completed status = if is_running status then finished else status
ended_status cancelled status = stopped
ended_status raised status = error

-- the end of `_run`, which comes once
unfoldable pub end_run : Outcome → Attack → Attack
unfolding ended_status
end_run outcome a = if a.task_done then a else record {
  status = ended_status outcome a.status;
  gate = a.gate;
  task_done = true;
  cancelling = a.cancelling;
}

-- What a worker that took a job does next: `none` waits, and otherwise the flag says whether the job is
-- run.
unfoldable pub worker_step : Attack → Option Bool
worker_step a = if not a.gate then none else elim a.status [
  | running ↦ some true
  | paused ↦ some true
  | finished ↦ some true
  | stopped ↦ some false
  | error ↦ some false
]

pub data Action : Type 0 where
  pause resume stop : Action
  end_of_run : Outcome → Action

unfoldable pub run : List Action → Attack → Attack
unfolding pause_attack resume_attack stop_attack end_run
run [] a = a
run (pause ∷ actions) a = run actions (pause_attack a).1
run (resume ∷ actions) a = run actions (resume_attack a).1
run (stop ∷ actions) a = run actions (stop_attack a).1
run (end_of_run outcome ∷ actions) a = run actions (end_run outcome a)
