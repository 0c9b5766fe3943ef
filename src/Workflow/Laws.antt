-- ===== src/Workflow/Laws.antt =====
-- What a run of the pipeline guarantees, over whatever the handlers and the checks do.
use pr_reviewer.Base.{
  refl, [], ◌∷◌, String, List, ◌≡◌, true, some, arith, Bool-cases, inl, All, inr, none, Option,
  count_where, Option-cases, find_where, find_where-none, count_where-find_where, ◌==◌, str_eq_refl,
}
use pr_reviewer.Workflow.{
  Env, StepName, Reply, Store, WorkflowInput, Ctx, result, mark_step_completed, is_completed,
  get_outcome, completed, same_step, raised, step_names, WorkflowResult, ensure_run, WorkflowStatus,
  is_run,
}
use pr_reviewer.Workflow.Engine.{loop, has_output, finished, outputs_of, advance, run, known}
use pr_reviewer.Workflow.Stored.{
  HasRun, is_completed-set_outcome, is_completed-mark, get_outcome-set_outcome, HasRun-mark,
  has_output-outputs_of,
}
use pr_reviewer.Workflow.Ends.{do_step-StepEnd, broke, halted, went}

module _ {World Output : Type 0} (env : Env World Output) (w : String) where
  -- What is known before the loop over `ns`: an output stands for a stored step.
  abbrev Backed : List (StepName × Output) → Store → Type 0
  Backed outputs s = (n : StepName) → has_output n outputs ≡ true → is_completed w s n ≡ true

  Backed-mark :
      (n : StepName) (out : Output) (outputs : List (StepName × Output)) (s s' : Store)
      → Backed outputs s
      → s' ≡ mark_step_completed w n (env.dumps out) s
      → Backed ((n, out) ∷ outputs) s'
  Backed-mark n out outputs s s' b e m h =
      rw (e, is_completed-mark w n m (env.dumps out) s)
        (elim (Bool-cases (same_step n m)) [ inl q ↦ rw q refl | inr q ↦ rw q (b m (rw q at h)) ])

  kept_mark :
      (n m : StepName) (json : String) (s s' : Store)
      → s' ≡ mark_step_completed w n json s
      → is_completed w s m ≡ true
      → is_completed w s' m ≡ true
  kept_mark n m json s s' e h = rw (e, is_completed-mark w n m json s, h) (ground arith)

  -- A stored step stays stored, however the loop ends.
  loop_keeps :
      (inp : WorkflowInput) (ns : List StepName) (outputs : List (StepName × Output))
      (c : Ctx World) (m : StepName)
      → is_completed w c.store m ≡ true
      → is_completed w (loop env w inp ns outputs c).1.store m ≡ true
  unfolding loop
  loop_keeps inp [] outputs c m h = rw (is_completed-set_outcome w m finished c.store) h
  loop_keeps inp (n ∷ ns) outputs c m h = elim (Bool-cases (has_output n outputs)) [
    | inl e ↦ rw e (loop_keeps inp ns outputs c m h)
    | inr e ↦ rw e (elim (do_step-StepEnd env w inp n (loop env w inp ns) outputs c) [
      | broke c' x q ↦ rw (x, q) h
      | halted r c' x f q ↦ rw (x, q, is_completed-set_outcome w m r c.store) h
      | went out c' x q ↦ rw x (
          loop_keeps inp ns ((n, out) ∷ outputs) c' m
            (kept_mark n m (env.dumps out) c.store c'.store q h))
    ])
  ]

  -- What the reply says of the store.
  abbrev pub Stands : List StepName → Reply → Store → Type 0
  Stands ns raised s = Unit
  Stands ns (result r) s =
      (get_outcome w s ≡ some (some r.status, r.reason))
      × (r.status ≡ completed → All (λ n. is_completed w s n ≡ true) ns)

  Stands-more :
      (n : StepName) (ns : List StepName) (x : Reply) (s : Store)
      → is_completed w s n ≡ true
      → Stands ns x s
      → Stands (n ∷ ns) x s
  Stands-more n ns raised s h k = tt
  Stands-more n ns (result r) s h k = (k.0, λ q. (h, k.1 q))

  Backed-start : (c : Ctx World) → Backed (outputs_of env.loads w c.store.steps) c.store
  Backed-start c n h = rw (← has_output-outputs_of w env.loads n c.store.steps) h

  same_step_refl : (n : StepName) → same_step n n ≡ true
  same_step_refl n = ground arith

  loop-Stands :
      (inp : WorkflowInput) (ns : List StepName) (outputs : List (StepName × Output))
      (c : Ctx World)
      → HasRun w c.store
      → Backed outputs c.store
      → Stands ns (loop env w inp ns outputs c).0 (loop env w inp ns outputs c).1.store
  unfolding loop
  loop-Stands inp [] outputs c r b = (get_outcome-set_outcome w finished c.store r, λ _. tt)
  loop-Stands inp (n ∷ ns) outputs c r b = elim (Bool-cases (has_output n outputs)) [
    | inl e ↦ rw e (
        Stands-more n ns (loop env w inp ns outputs c).0 _ (loop_keeps inp ns outputs c n (b n e))
          (loop-Stands inp ns outputs c r b))
    | inr e ↦ rw e (elim (do_step-StepEnd env w inp n (loop env w inp ns) outputs c) [
      | broke c' x q ↦ rw x tt
      | halted s c' x f q ↦
          rw x (rw q (get_outcome-set_outcome w s c.store r), λ done. absurd (f done))
      | went out c' x q ↦
          let r' : HasRun w c'.store = rw q (HasRun-mark w n (env.dumps out) c.store r) in
          rw x (
            Stands-more n ns (loop env w inp ns ((n, out) ∷ outputs) c').0 _
              (loop_keeps inp ns ((n, out) ∷ outputs) c' n
                (rw (q, is_completed-mark w n n (env.dumps out) c.store, same_step_refl n) refl))
              (loop-Stands inp ns ((n, out) ∷ outputs) c' r'
                (Backed-mark n out outputs c.store c'.store b q)))
    ])
  ]

  -- A workflow whose stored outcome is completed has every step stored.
  abbrev pub IsConsistent : Store → Type 0
  IsConsistent s =
      (reason : Option String)
      → get_outcome w s ≡ some (some completed, reason)
      → All (λ n. is_completed w s n ≡ true) step_names

  known-Stands :
      (inp : WorkflowInput) (o : Option (Option WorkflowStatus × Option String)) (c : Ctx World)
      → get_outcome w c.store ≡ o
      → HasRun w c.store
      → IsConsistent c.store
      → Stands step_names (known env w inp o c).0 (known env w inp o c).1.store
  known-Stands inp none c e r k = tt
  known-Stands inp (some (some s, reason)) c e r k = (e, λ q. k reason (rw (← q) e))
  known-Stands inp (some (none, reason)) c e r k =
      loop-Stands inp step_names (outputs_of env.loads w c.store.steps) c r (Backed-start c)

  HasRun-ensure_run : (inp : WorkflowInput) (s : Store) → HasRun w (ensure_run w inp s)
  unfolding ensure_run
  HasRun-ensure_run inp s = elim (Option-cases (find_where (is_run w) s.runs)) [
    | inl e ↦ (
      record { workflow_id = w; input = inp; outcome = none; reason = none },
      ground (arith, find_where-none (is_run w) s.runs e, str_eq_refl w),
    )
    | inr (r, e) ↦ (r, ground (arith, count_where-find_where (is_run w) s.runs e))
  ]

  IsConsistent-ensure_run :
      (inp : WorkflowInput) (s : Store) → IsConsistent s → IsConsistent (ensure_run w inp s)
  unfolding ensure_run get_outcome
  IsConsistent-ensure_run inp s k reason = elim (Bool-cases (count_where (is_run w) s.runs == 0)) [
    | inl e ↦ rw e (λ q. ground (arith, str_eq_refl w))
    | inr e ↦ rw e (k reason)
  ]

  -- When a run comes back with a result, the store has that result for the workflow; and when the
  -- result is a completion, the store has the output of every one of the six steps. The store the
  -- run starts from has every step of a workflow that it calls completed.
  pub run-Stands :
      (inp : WorkflowInput) (c : Ctx World)
      → IsConsistent c.store
      → Stands step_names (run env w inp c).0 (run env w inp c).1.store
  unfolding run advance
  run-Stands inp c k =
      known-Stands inp (get_outcome w (ensure_run w inp c.store))
        (record c { store = ensure_run w inp c.store }) refl (HasRun-ensure_run inp c.store)
        (IsConsistent-ensure_run inp c.store k)

  ensure_run_known :
      (inp : WorkflowInput) (s : Store) {x : Option WorkflowStatus × Option String}
      → get_outcome w s ≡ some x
      → ensure_run w inp s ≡ s
  unfolding ensure_run get_outcome
  ensure_run_known inp s {x} h = elim (Option-cases (find_where (is_run w) s.runs)) [
    | inl e ↦ ground arith
    | inr (r, e) ↦ ground (arith, count_where-find_where (is_run w) s.runs e)
  ]

  run_known :
      (inp : WorkflowInput) (c : Ctx World) (s : WorkflowStatus) (reason : Option String)
      → get_outcome w c.store ≡ some (some s, reason)
      → run env w inp c ≡ (result (record { status = s; reason = reason }), c)
  unfolding run advance
  run_known inp c s reason h = rw (ensure_run_known inp c.store h, h) refl

  -- Once a run has come back with a result, running the workflow again gives the same result and
  -- changes neither the store, nor the events, nor the world: no handler is called again. The store
  -- the first run starts from has every step of a workflow that it calls completed.
  pub run_again :
      (inp inp' : WorkflowInput) (c : Ctx World) {r : WorkflowResult}
      → IsConsistent c.store
      → (run env w inp c).0 ≡ result r
      → run env w inp' (run env w inp c).1 ≡ (result r, (run env w inp c).1)
  run_again inp inp' c {r} k h =
      let st : Stands step_names (result r) (run env w inp c).1.store =
        rw h at (run-Stands inp c k) in
      run_known inp' (run env w inp c).1 r.status r.reason st.0
