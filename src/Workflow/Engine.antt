-- ===== src/Workflow/Engine.antt =====
-- SimpleEngine: its checkpoint before each step, the loop over the steps, run and resume. A caller's
-- exception is `none` in the environment and `raised` in the reply; what the store held then stays.
use pr_reviewer.Jobs.Runner.{LeaseState, active, invalid_or_expired}
use pr_reviewer.Base.{
  none, [], ◌∷◌, String, List, some, Bool, if◌then◌else◌, Option, ℕ, false, ◌++◌, str_eq, ltb, ◌||◌,
  ◌-◌,
}
use pr_reviewer.Workflow.{
  WorkflowResult, StepName, Env, completed, Ctx, WorkflowInput, EngineEvent, cancelled, failed,
  StepRow, Reply, Check, result, broken, load_input, stop, step_completed, ensure_run, get_outcome,
  raised, go, WorkflowStatus, step_names, workflow_cancelled, mark_step_completed, set_outcome,
  same_step, workflow_failed,
}

abbrev pub cancelled_for : String → WorkflowResult
cancelled_for reason = record { status = cancelled; reason = some reason }

abbrev pub failed_for : String → WorkflowResult
failed_for reason = record { status = failed; reason = some reason }

abbrev pub finished : WorkflowResult
finished = record { status = completed; reason = none }

-- dict(completed_outputs): the outputs that the store has for a workflow
abbrev pub outputs_of :
    {Output : Type 0} → (String → Output) → String → List StepRow → List (StepName × Output)
outputs_of loads w [] = []
outputs_of loads w (r ∷ rs) =
    let rest = outputs_of loads w rs in
    if str_eq r.workflow_id w then (r.step_name, loads r.output_json) ∷ rest else rest

-- name in outputs
abbrev pub has_output {ℓ} : {A : Type ℓ} → StepName → List (StepName × A) → Bool
has_output n [] = false
has_output n (x ∷ xs) = same_step x.0 n || has_output n xs

module _ {World Output : Type 0} (env : Env World Output) (w : String) where
  abbrev pub emit : EngineEvent → Ctx World → Ctx World
  emit e c = record c { events = if env.has_recorder then c.events ++ e ∷ [] else c.events }

  abbrev pub lease_reply : WorkflowInput → Option LeaseState → Ctx World → Check × Ctx World
  lease_reply inp none c = (broken, c)
  lease_reply inp (some active) c = (go, c)
  lease_reply inp (some LeaseState.cancelled) c =
      (stop (cancelled_for "cancelled"), emit (workflow_cancelled inp.job_id "cancelled") c)
  lease_reply inp (some invalid_or_expired) c = (
    stop (failed_for "invalid_or_expired"),
    emit (workflow_failed inp.job_id "invalid_or_expired") c,
  )

  abbrev pub head_reply : WorkflowInput → Option String → Ctx World → Check × Ctx World
  head_reply inp none c = (broken, c)
  head_reply inp (some live) c =
      if str_eq live inp.head_sha
      then (go, c)
      else (stop (cancelled_for "superseded"), emit (workflow_cancelled inp.job_id "superseded") c)

  abbrev pub check_lease : WorkflowInput → Ctx World → Check × Ctx World
  check_lease inp c = elim env.heartbeat [
    | none ↦ (go, c)
    | some beat ↦
        let (lease, world) = beat inp c.world in lease_reply inp lease (record c { world = world })
  ]

  abbrev pub check_head : WorkflowInput → Ctx World → Check × Ctx World
  check_head inp c = elim env.current_head_sha [
    | none ↦ (go, c)
    | some live ↦
        let (sha, world) = live inp c.world in head_reply inp sha (record c { world = world })
  ]

  abbrev pub then_head : WorkflowInput → Check → Ctx World → Check × Ctx World
  then_head inp go c = check_head inp c
  then_head inp (stop r) c = (stop r, c)
  then_head inp broken c = (broken, c)

  -- _checkpoint
  unfoldable pub checkpoint : WorkflowInput → Ctx World → Check × Ctx World
  checkpoint inp c = let (check, c') = check_lease inp c in then_head inp check c'

  abbrev pub Rest : Type 0
  Rest = List (StepName × Output) → Ctx World → Reply × Ctx World

  abbrev pub store_step :
      WorkflowInput
      → StepName
      → Output
      → Rest
      → List (StepName × Output)
      → Ctx World
      → Reply × Ctx World
  store_step inp n out rest outputs c = rest ((n, out) ∷ outputs) (
      emit (step_completed inp.job_id n)
        (record c { store = mark_step_completed w n (env.dumps out) c.store }))

  -- the step's timeout, if it has one, is looked at after the handler is back
  abbrev pub timed :
      WorkflowInput
      → StepName
      → (started : ℕ) → Option ℕ
      → Output
      → Rest
      → List (StepName × Output)
      → Ctx World
      → Reply × Ctx World
  timed inp n started none out rest outputs c = store_step inp n out rest outputs c
  timed inp n started (some timeout) out rest outputs c =
      let (now, world) = env.monotonic c.world in
      if ltb timeout (now - started)
      then (raised, record c { world = world })
      else store_step inp n out rest outputs (record c { world = world })

  abbrev pub handled :
      WorkflowInput
      → StepName
      → (started : ℕ) → Option Output
      → Rest
      → List (StepName × Output)
      → Ctx World
      → Reply × Ctx World
  handled inp n started none rest outputs c = (raised, c)
  handled inp n started (some out) rest outputs c =
      timed inp n started (env.step_timeouts n) out rest outputs c

  abbrev pub after_check :
      WorkflowInput
      → StepName
      → Check
      → Rest
      → List (StepName × Output)
      → Ctx World
      → Reply × Ctx World
  after_check inp n broken rest outputs c = (raised, c)
  after_check inp n (stop r) rest outputs c =
      (result r, record c { store = set_outcome w r c.store })
  after_check inp n go rest outputs c =
      let (started, world) = env.monotonic c.world in
      let (out, world') = env.handler n inp outputs world in
      handled inp n started out rest outputs (record c { world = world' })

  -- The body of the loop for a step that has no output yet; `rest` is the loop after it.
  unfoldable pub do_step :
      WorkflowInput → StepName → Rest → List (StepName × Output) → Ctx World → Reply × Ctx World
  unfolding checkpoint
  do_step inp n rest outputs c =
      let (check, c') = checkpoint inp c in after_check inp n check rest outputs c'

  unfoldable pub loop :
      WorkflowInput → List StepName → List (StepName × Output) → Ctx World → Reply × Ctx World
  loop inp [] outputs c = (result finished, record c { store = set_outcome w finished c.store })
  loop inp (n ∷ ns) outputs c =
      let rest = loop inp ns in
      if has_output n outputs then rest outputs c else do_step inp n rest outputs c

  abbrev pub known :
      WorkflowInput → Option (Option WorkflowStatus × Option String) → Ctx World → Reply × Ctx World
  known inp none c = (raised, c)
  known inp (some (some s, reason)) c = (result (record { status = s; reason = reason }), c)
  known inp (some (none, reason)) c = loop inp step_names (outputs_of env.loads w c.store.steps) c

  -- _advance
  unfoldable pub advance : WorkflowInput → Ctx World → Reply × Ctx World
  advance inp c = known inp (get_outcome w c.store) c

  unfoldable pub run : WorkflowInput → Ctx World → Reply × Ctx World
  run inp c = advance inp (record c { store = ensure_run w inp c.store })

  unfoldable pub resume : Ctx World → Reply × Ctx World
  resume c = elim (load_input w c.store) [ none ↦ (raised, c) | some inp ↦ advance inp c ]
