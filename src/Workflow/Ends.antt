-- ===== src/Workflow/Ends.antt =====
-- How the body of the loop can end: an exception, a stop at the checkpoint, or the next step.
use pr_reviewer.Base.{
  refl, ◌∷◌, String, ◌≡◌, List, ◌≢◌, arith, ℕ, Option, ap, some, inl, inr, Bool-cases, ltb, ◌-◌,
  none,
}
use pr_reviewer.Workflow.{
  Env, WorkflowInput, StepName, Ctx, Check, WorkflowResult, Reply, raised, stop, result, completed,
  set_outcome, mark_step_completed, broken, go,
}
use pr_reviewer.Workflow.Engine.{checkpoint, Rest, do_step, handled, after_check, timed}

module _ {World Output : Type 0} (env : Env World Output) (w : String) where
  pub data StepEnd (n : StepName) (rest : Rest env w) (outputs : List (StepName × Output))
      (c : Ctx World) (x : Reply × Ctx World) : Type 0 where
    broke : (c' : Ctx World) → x ≡ (raised, c') → c'.store ≡ c.store → StepEnd n rest outputs c x
    halted :
        (r : WorkflowResult) (c' : Ctx World)
        → x ≡ (result r, c')
        → r.status ≢ completed
        → c'.store ≡ set_outcome w r c.store
        → StepEnd n rest outputs c x
    went :
        (out : Output) (c' : Ctx World)
        → x ≡ rest ((n, out) ∷ outputs) c'
        → c'.store ≡ mark_step_completed w n (env.dumps out) c.store
        → StepEnd n rest outputs c x

  -- The checkpoint leaves the store, and a result that it stops with is no completion.
  abbrev IsQuiet : Ctx World → Check × Ctx World → Type 0
  IsQuiet c x = (x.1.store ≡ c.store) × ((r : WorkflowResult) → x.0 ≡ stop r → r.status ≢ completed)

  checkpoint-IsQuiet : (inp : WorkflowInput) (c : Ctx World) → IsQuiet c (checkpoint env w inp c)
  unfolding checkpoint
  checkpoint-IsQuiet inp c = (ground arith, λ r e q. ground arith)

  timed-StepEnd :
      (inp : WorkflowInput) (n : StepName) (t : ℕ) (limit : Option ℕ) (out : Output)
      (rest : Rest env w) (outputs : List (StepName × Output)) (c c' : Ctx World)
      → c'.store ≡ c.store
      → StepEnd n rest outputs c (timed env w inp n t limit out rest outputs c')
  timed-StepEnd inp n t none out rest outputs c c' q =
      went out _ refl (ap (mark_step_completed w n (env.dumps out)) q)
  timed-StepEnd inp n t (some limit) out rest outputs c c' q =
      elim (Bool-cases (ltb limit ((env.monotonic c'.world).0 - t))) [
        | inl b ↦ rw b (broke _ refl q)
        | inr b ↦ rw b (went out _ refl (ap (mark_step_completed w n (env.dumps out)) q))
      ]

  handled-StepEnd :
      (inp : WorkflowInput) (n : StepName) (t : ℕ) (o : Option Output) (rest : Rest env w)
      (outputs : List (StepName × Output)) (c c' : Ctx World)
      → c'.store ≡ c.store
      → StepEnd n rest outputs c (handled env w inp n t o rest outputs c')
  handled-StepEnd inp n t none rest outputs c c' q = broke c' refl q
  handled-StepEnd inp n t (some out) rest outputs c c' q =
      timed-StepEnd inp n t (env.step_timeouts n) out rest outputs c c' q

  after_check-StepEnd :
      (inp : WorkflowInput) (n : StepName) (k : Check) (rest : Rest env w)
      (outputs : List (StepName × Output)) (c c' : Ctx World)
      → c'.store ≡ c.store
      → ((r : WorkflowResult) → k ≡ stop r → r.status ≢ completed)
      → StepEnd n rest outputs c (after_check env w inp n k rest outputs c')
  after_check-StepEnd inp n broken rest outputs c c' q f = broke c' refl q
  after_check-StepEnd inp n (stop r) rest outputs c c' q f =
      halted r _ refl (f r refl) (ap (set_outcome w r) q)
  after_check-StepEnd inp n go rest outputs c c' q f = handled-StepEnd inp n _ _ rest outputs c _ q

  -- The body of the loop ends in one of the three ways.
  pub do_step-StepEnd :
      (inp : WorkflowInput) (n : StepName) (rest : Rest env w) (outputs : List (StepName × Output))
      (c : Ctx World)
      → StepEnd n rest outputs c (do_step env w inp n rest outputs c)
  unfolding do_step
  do_step-StepEnd inp n rest outputs c =
      after_check-StepEnd inp n (checkpoint env w inp c).0 rest outputs c (checkpoint env w inp c).1
        (checkpoint-IsQuiet inp c).0 (checkpoint-IsQuiet inp c).1
