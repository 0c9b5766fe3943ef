-- ===== src/LocalStore/Records.antt =====
-- The snapshots, findings, human decisions and events of the runner's jobs, and a job's trace.
use pr_reviewer.Base.{
  List, ℕ, String, Option, none, some, [], ◌∷◌, ◌++◌, find_where, delete_where, ◌==◌, str_eq,
  sort_by, ◌+◌, not,
}
use pr_reviewer.LocalStore.{
  SnapshotRow, LocalStore, LocalJob, LocalHumanDecision, LocalEvent, FindingRow,
}
use pr_reviewer.LocalStore.Jobs.{get_job}

-- insert or replace
unfoldable pub record_snapshot : (job_id : ℕ) (snapshot : String) → LocalStore → LocalStore
record_snapshot i x s = record s {
  snapshots =
      delete_where (λ r. r.job_id == i) s.snapshots ++ record { job_id = i; snapshot = x } ∷ [];
}

abbrev snapshot_of : Option SnapshotRow → Option String
snapshot_of none = none
snapshot_of (some r) = some r.snapshot

unfoldable pub get_snapshot : (job_id : ℕ) → LocalStore → Option String
get_snapshot i s = snapshot_of (find_where (λ r. r.job_id == i) s.snapshots)

-- insert or replace: the row of a finding that was recorded before is a new one
unfoldable pub record_finding :
    (now : ℕ) (id : String) (job_id : ℕ) (finding : String) → LocalStore → LocalStore
record_finding now id i x s = record s {
  findings =
      delete_where (λ f. str_eq f.id id) s.findings
      ++ record { id = id; job_id = i; finding = x; created_at = now } ∷ [];
}

unfoldable pub list_for_job : (job_id : ℕ) → LocalStore → List FindingRow
list_for_job i s = sort_by (λ f. f.created_at) (delete_where (λ f. not (f.job_id == i)) s.findings)

unfoldable pub record_decision :
    (now : ℕ) (finding_id decision decided_by : String)
    → Option String
    → (original_hash edited_hash : String) → LocalStore
    → LocalStore
record_decision now finding_id decision decided_by note original_hash edited_hash s = record s {
  human_decisions =
      s.human_decisions
      ++ record {
        id = s.fresh_decision;
        finding_id = finding_id;
        decision = decision;
        decided_by = decided_by;
        note = note;
        created_at = now;
        original_hash = original_hash;
        edited_hash = edited_hash;
      }
        ∷ [];
  fresh_decision = s.fresh_decision + 1;
}

unfoldable pub list_for_finding : (finding_id : String) → LocalStore → List LocalHumanDecision
list_for_finding x s =
    sort_by (λ d. d.created_at) (delete_where (λ d. not (str_eq d.finding_id x)) s.human_decisions)

unfoldable pub record_event :
    (now : ℕ) → Option ℕ → (trace_id : ℕ) (event_type payload : String) → LocalStore → LocalStore
record_event now job_id trace_id event_type payload s = record s {
  events =
      s.events
      ++ record {
        sequence = s.fresh_event;
        job_id = job_id;
        trace_id = trace_id;
        event_type = event_type;
        payload = payload;
        created_at = now;
      }
        ∷ [];
  fresh_event = s.fresh_event + 1;
}

-- order by sequence
unfoldable pub list_all : LocalStore → List LocalEvent
list_all s = sort_by (λ e. e.sequence) s.events

unfoldable pub list_for_trace : (trace_id : ℕ) → LocalStore → List LocalEvent
list_for_trace t s = sort_by (λ e. e.sequence) (delete_where (λ e. not (e.trace_id == t)) s.events)

abbrev traced : Option LocalJob → LocalStore → Option (ℕ × List LocalEvent)
traced none s = none
traced (some j) s = some (j.target.trace_id, list_for_trace j.target.trace_id s)

-- the trace of a job that has a row: its id, and its events in order
unfoldable pub fetch_trace : (job_id : ℕ) → LocalStore → Option (ℕ × List LocalEvent)
fetch_trace i s = traced (get_job i s) s
