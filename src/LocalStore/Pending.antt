-- ===== src/LocalStore/Pending.antt =====
-- PendingAcknowledgementStore: results that the control plane has not taken yet.
use pr_reviewer.Base.{List, ℕ, String, [], ◌∷◌, ◌++◌, map_where, delete_where, ◌==◌, sort_by, ◌+◌}
use pr_reviewer.LocalStore.{LocalStore, PendingAcknowledgementReason, PendingAcknowledgement}
use pr_reviewer.Jobs.Runner.{JobAcknowledgement}

abbrev pub pending_row :
    (id now job_id : ℕ) (lease_token : String)
    → JobAcknowledgement
    → PendingAcknowledgementReason
    → PendingAcknowledgement
pending_row id now job_id lease_token result reason = record {
  id = id;
  job_id = job_id;
  lease_token = lease_token;
  result = result;
  reason = reason;
  attempts = 0;
  created_at = now;
}

unfoldable pub record_pending :
    (now job_id : ℕ) (lease_token : String)
    → JobAcknowledgement
    → PendingAcknowledgementReason
    → LocalStore
    → LocalStore
record_pending now job_id lease_token result reason s = record s {
  pending_acknowledgements =
      s.pending_acknowledgements
      ++ pending_row s.fresh_pending now job_id lease_token result reason ∷ [];
  fresh_pending = s.fresh_pending + 1;
}

-- order by created_at
unfoldable pub list_pending : LocalStore → List PendingAcknowledgement
list_pending s = sort_by (λ p. p.created_at) s.pending_acknowledgements

unfoldable pub resolve : (entry_id : ℕ) → LocalStore → LocalStore
resolve i s = record s {
  pending_acknowledgements = delete_where (λ p. p.id == i) s.pending_acknowledgements;
}

abbrev pub count_up : PendingAcknowledgement → PendingAcknowledgement
count_up p = record p { attempts = p.attempts + 1 }

unfoldable pub bump_attempt : (entry_id : ℕ) → LocalStore → LocalStore
bump_attempt i s = record s {
  pending_acknowledgements = map_where (λ p. p.id == i) count_up s.pending_acknowledgements;
}
