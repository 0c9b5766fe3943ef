-- ===== src/Workflow/Stored.antt =====
-- What the store answers after a write.
use pr_reviewer.Base.{
  refl, [], ◌∷◌, String, List, arith, ◌≡◌, find_where, some, ◌||◌, true, map_where, Bool-cases, not,
  inl, str_eq_refl, count_where, inr, ◌==◌, Bool, str_eq, false, ℕ, if◌then◌else◌, ◌+◌,
}
use pr_reviewer.Workflow.{
  StepName, same_step, Store, Run, mark_step_completed, get_outcome, set_outcome, WorkflowResult,
  is_run, StepRow, is_completed, is_step,
}
use pr_reviewer.Workflow.Engine.{has_output, outputs_of}

same_step→eq : (a b : StepName) → same_step a b ≡ true → a ≡ b
same_step→eq a b h = ground arith

counted :
    (b : Bool) (k : ℕ) {h : Bool}
    → h ≡ not (k == 0)
    → (b || h) ≡ not ((if b then 1 else 0) + k == 0)
counted true k h = ground arith
counted false k h = ground arith

module _ (w : String) where
  pub is_completed-mark :
      (n m : StepName) (json : String) (s : Store)
      → is_completed w (mark_step_completed w n json s) m ≡ (same_step n m || is_completed w s m)
  unfolding mark_step_completed
  is_completed-mark n m json s = elim (Bool-cases (same_step n m)) [
    | inl e ↦ let q : n ≡ m = same_step→eq n m e in ground (arith, str_eq_refl w)
    | inr e ↦ ground arith
  ]

  pub is_completed-set_outcome :
      (m : StepName) (r : WorkflowResult) (s : Store)
      → is_completed w (set_outcome w r s) m ≡ is_completed w s m
  unfolding set_outcome
  is_completed-set_outcome m r s = refl

  pub get_outcome-mark :
      (n : StepName) (json : String) (s : Store)
      → get_outcome w (mark_step_completed w n json s) ≡ get_outcome w s
  unfolding mark_step_completed get_outcome
  get_outcome-mark n json s = ground arith

  found_after :
      (f : Run → Run) (rs : List Run) {r : Run}
      → ((x : Run) → is_run w (f x) ≡ is_run w x)
      → find_where (is_run w) rs ≡ some r
      → find_where (is_run w) (map_where (is_run w) f rs) ≡ some (f r)
  found_after f [] same h = cc
  found_after f (x ∷ rs) {r} same h = ground (arith, same x, found_after f rs {r = r} same)

  -- The store has a run of the workflow.
  abbrev pub HasRun : Store → Type 0
  HasRun s = (r : Run) × (find_where (is_run w) s.runs ≡ some r)

  pub get_outcome-set_outcome :
      (r : WorkflowResult) (s : Store)
      → HasRun s
      → get_outcome w (set_outcome w r s) ≡ some (some r.status, r.reason)
  unfolding get_outcome set_outcome
  get_outcome-set_outcome r s (x, h) = ground (
    arith,
    found_after (λ y. record y { outcome = some r.status; reason = r.reason }) s.runs {r = x}
        (λ y. refl) h,
  )

  pub HasRun-mark :
      (n : StepName) (json : String) (s : Store)
      → HasRun s
      → HasRun (mark_step_completed w n json s)
  unfolding mark_step_completed
  HasRun-mark n json s (x, h) = (x, ground arith)

  pub has_output-outputs_of :
      {Output : Type 0} (loads : String → Output) (n : StepName) (rs : List StepRow)
      → has_output n (outputs_of loads w rs) ≡ not (count_where (is_step w n) rs == 0)
  has_output-outputs_of loads n [] = refl
  has_output-outputs_of loads n (r ∷ rs) =
      let ih = has_output-outputs_of loads n rs in
      elim (Bool-cases (str_eq r.workflow_id w)) [
        | inl e ↦ rw e (counted (same_step r.step_name n) (count_where (is_step w n) rs) ih)
        | inr e ↦ rw e (counted false (count_where (is_step w n) rs) ih)
      ]
