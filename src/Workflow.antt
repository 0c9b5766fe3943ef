-- ===== src/Workflow.antt =====
-- The review pipeline: src/pr_reviewer/workflow/engine.py, store.py and simple_engine.py. The step
-- handlers, the heartbeat, the live head and the clock are the caller's and come as `Env`: each
-- takes the state of the world and gives it back changed. Times are microseconds.
pub mod Engine
pub mod Stored
pub mod Ends
pub mod Laws
pub mod Review
use pr_reviewer.Jobs.Runner.{LeaseState}
use pr_reviewer.Base.{
  none, [], ◌∷◌, Bool, ℕ, String, List, Option, not, ◌==◌, if◌then◌else◌, find_where, map_where,
  str_eq, ◌&&◌, count_where, some,
}

-- STEP_NAMES
pub data StepName : Type 0 where
  fetch baseline_review retrieval verification routing storage : StepName

abbrev pub step_names : List StepName
step_names = fetch ∷ baseline_review ∷ retrieval ∷ verification ∷ routing ∷ storage ∷ []

abbrev pub step_index : StepName → ℕ
step_index fetch = 0
step_index baseline_review = 1
step_index retrieval = 2
step_index verification = 3
step_index routing = 4
step_index storage = 5

abbrev pub same_step : StepName → StepName → Bool
same_step a b = step_index a == step_index b

pub record WorkflowInput : Type 0 where
  pub job_id : String
  pub head_sha : String
  pub trace_id : String
  pub lease_token : String

pub data WorkflowStatus : Type 0 where
  completed cancelled failed : WorkflowStatus

pub record WorkflowResult : Type 0 where
  pub status : WorkflowStatus
  pub reason : Option String

-- A row of workflow_runs; its input_json is read back as the input.
pub record Run : Type 0 where
  pub workflow_id : String
  pub input : WorkflowInput
  pub outcome : Option WorkflowStatus
  pub reason : Option String

-- A row of workflow_steps.
pub record StepRow : Type 0 where
  pub workflow_id : String
  pub step_name : StepName
  pub output_json : String

pub record Store : Type 0 where
  pub runs : List Run
  pub steps : List StepRow

abbrev pub is_run : String → Run → Bool
is_run w r = str_eq r.workflow_id w

abbrev pub is_step : String → StepName → StepRow → Bool
is_step w n r = str_eq r.workflow_id w && same_step r.step_name n

-- insert or ignore
unfoldable pub ensure_run : String → WorkflowInput → Store → Store
ensure_run w inp s =
    if count_where (is_run w) s.runs == 0
    then record s {
      runs = record { workflow_id = w; input = inp; outcome = none; reason = none } ∷ s.runs;
    }
    else s

-- insert or ignore, under the primary key (workflow_id, step_name)
unfoldable pub mark_step_completed : String → StepName → String → Store → Store
mark_step_completed w n json s =
    if count_where (is_step w n) s.steps == 0
    then record s {
      steps = record { workflow_id = w; step_name = n; output_json = json } ∷ s.steps;
    }
    else s

unfoldable pub set_outcome : String → WorkflowResult → Store → Store
set_outcome w r s = record s {
  runs = map_where (is_run w) (λ x. record x { outcome = some r.status; reason = r.reason }) s.runs;
}

-- `none` is the KeyError for a run that is not there
unfoldable pub load_input : String → Store → Option WorkflowInput
load_input w s = elim (find_where (is_run w) s.runs) [ none ↦ none | some r ↦ some r.input ]

-- get_state's outcome and reason
unfoldable pub get_outcome : String → Store → Option (Option WorkflowStatus × Option String)
get_outcome w s = elim (find_where (is_run w) s.runs) [
  | none ↦ none
  | some r ↦ some (r.outcome, r.reason)
]

-- completed_steps of get_state: the names, in pipeline order, that have a row
abbrev pub is_completed : String → Store → StepName → Bool
is_completed w s n = not (count_where (is_step w n) s.steps == 0)

pub record Env (World Output : Type 0) : Type 0 where
  -- `none` is an exception
  pub handler : StepName → WorkflowInput → List (StepName × Output) → World → Option Output × World
  pub heartbeat : Option (WorkflowInput → World → Option LeaseState × World)
  pub current_head_sha : Option (WorkflowInput → World → Option String × World)
  pub monotonic : World → ℕ × World
  pub step_timeouts : StepName → Option ℕ
  pub dumps : Output → String
  pub loads : String → Output
  pub has_recorder : Bool

pub data EngineEvent : Type 0 where
  step_completed : (job_id : String) → StepName → EngineEvent
  workflow_cancelled workflow_failed : (job_id reason : String) → EngineEvent

pub record Ctx (World : Type 0) : Type 0 where
  pub store : Store
  pub world : World
  pub events : List EngineEvent

pub data Check : Type 0 where
  go : Check
  stop : WorkflowResult → Check
  broken : Check

-- What run and resume give: a result, or an exception that leaves the store as it then is.
pub data Reply : Type 0 where
  result : WorkflowResult → Reply
  raised : Reply
