-- ===== src/Reviewer/Answered.antt =====
-- What run_specialists makes of the specialists' answers: an independent account of who is asked,
-- and the findings of those that answered, merged.
use mathlib.Core.List.{Memᴰ, append_assoc, append-nil}
use pr_reviewer.Base.{
  refl, List, String, Option, ◌≡◌, some, [], ◌∷◌, ◌++◌, none, ◌≢◌, arith, ◌∙◌, true, some_inj, ap,
  subst, sym, All, All-each,
}
use pr_reviewer.Reviewer.Specialists.{
  Collected, SpecialistAnswer, collect, merged_run, run_specialists, after_answer, SpecialistRun,
  timed_out, found, specialist_concerns, raised, ask,
}
use pr_reviewer.Aggregate.{FindingCandidate}
use pr_reviewer.Aggregate.{Words}
use pr_reviewer.Aggregate.Covers.{Covers}
use pr_reviewer.Aggregate.Merged.{aggregate_findings-Covers}

abbrev pub found_by : SpecialistAnswer → List FindingCandidate
found_by (found fs) = fs
found_by _ = []

abbrev pub late_by : String → SpecialistAnswer → List String
late_by concern timed_out = concern ∷ []
late_by concern _ = []

abbrev pub found_in : List (String × SpecialistAnswer) → List FindingCandidate
found_in [] = []
found_in ((concern, a) ∷ rest) = found_by a ++ found_in rest

abbrev pub late_in : List (String × SpecialistAnswer) → List String
late_in [] = []
late_in ((concern, a) ∷ rest) = late_by concern a ++ late_in rest

-- Who is asked, in which order, and what is answered; a specialist that raises ends the round
-- without answers.
abbrev pub Answers : Type 0
Answers = Option (List (String × SpecialistAnswer))

abbrev pub with_answer : String → SpecialistAnswer → Answers → Answers
with_answer concern a none = none
with_answer concern a (some rest) = some ((concern, a) ∷ rest)

abbrev gathered : Collected → Answers → Option Collected
gathered c none = none
gathered (fs, late) (some answers) = some (fs ++ found_in answers, late ++ late_in answers)

gathered-found :
    (concern : String) (fs gs : List FindingCandidate) (late : List String) (o : Answers)
    → gathered (fs ++ gs, late) o ≡ gathered (fs, late) (with_answer concern (found gs) o)
gathered-found concern fs gs late none = refl
gathered-found concern fs gs late (some answers) = rw (append_assoc fs gs (found_in answers)) refl

gathered-timed_out :
    (concern : String) (fs : List FindingCandidate) (late : List String) (o : Answers)
    → gathered (fs, late ++ concern ∷ []) o ≡ gathered (fs, late) (with_answer concern timed_out o)
gathered-timed_out concern fs late none = refl
gathered-timed_out concern fs late (some answers) =
    rw (append_assoc late (concern ∷ []) (late_in answers)) refl

module _ {World : Type 0} (reviewers : String → Option (World → SpecialistAnswer × World)) where
  pub data Asks : List String → World → Answers → World → Type 0 where
    end : {w : World} → Asks [] w (some []) w
    absent :
        {concern : String} {concerns : List String} {w v : World} {o : Answers}
        → reviewers concern ≡ none
        → Asks concerns w o v
        → Asks (concern ∷ concerns) w o v
    answer :
        {concern : String} {concerns : List String} {w u v : World} {o : Answers}
        (reviewer : World → SpecialistAnswer × World) (a : SpecialistAnswer)
        → reviewers concern ≡ some reviewer
        → reviewer w ≡ (a, u)
        → a ≢ raised
        → Asks concerns u o v
        → Asks (concern ∷ concerns) w (with_answer concern a o) v
    stop :
        {concern : String} {concerns : List String} {w u : World}
        (reviewer : World → SpecialistAnswer × World)
        → reviewers concern ≡ some reviewer
        → reviewer w ≡ (raised, u)
        → Asks (concern ∷ concerns) w none u

  -- What the loop has done.
  abbrev Gathers : List String → Collected → World → Option Collected × World → Type 0
  Gathers concerns c w x = (o : Answers) × Asks concerns w o x.1 × (x.0 ≡ gathered c o)

  after_answer-Gathers :
      (concern : String) (concerns : List String) (c : Collected) (w : World)
      (reviewer : World → SpecialistAnswer × World)
      → reviewers concern ≡ some reviewer
      → (x : SpecialistAnswer × World) → reviewer w ≡ x
      → ((d : Collected) (u : World) → Gathers concerns d u (collect reviewers concerns d u))
      → Gathers
          (concern ∷ concerns)
          c
          w
          (after_answer reviewers concern x c (collect reviewers concerns))
  after_answer-Gathers concern concerns (fs, late) w reviewer r (found gs, u) q rest =
      let (o, steps, e) = rest (fs ++ gs, late) u in
      (
        with_answer concern (found gs) o,
        Asks.answer reviewer (found gs) r q (λ h. absurd cc) steps,
        e ∙ gathered-found concern fs gs late o,
      )
  after_answer-Gathers concern concerns (fs, late) w reviewer r (timed_out, u) q rest =
      let (o, steps, e) = rest (fs, late ++ concern ∷ []) u in
      (
        with_answer concern timed_out o,
        Asks.answer reviewer timed_out r q (λ h. absurd cc) steps,
        e ∙ gathered-timed_out concern fs late o,
      )
  after_answer-Gathers concern concerns (fs, late) w reviewer r (raised, u) q rest =
      (none, Asks.stop reviewer r q, refl)

  ask-Gathers :
      (concern : String) (concerns : List String) (c : Collected) (w : World)
      (r : Option (World → SpecialistAnswer × World))
      → reviewers concern ≡ r
      → ((d : Collected) (u : World) → Gathers concerns d u (collect reviewers concerns d u))
      → Gathers (concern ∷ concerns) c w (ask reviewers concern r c w (collect reviewers concerns))
  ask-Gathers concern concerns c w none z rest =
      let (o, steps, e) = rest c w in (o, Asks.absent z steps, e)
  ask-Gathers concern concerns c w (some reviewer) z rest =
      after_answer-Gathers concern concerns c w reviewer z (reviewer w) refl rest

  collect-Gathers :
      (concerns : List String) (c : Collected) (w : World)
      → Gathers concerns c w (collect reviewers concerns c w)
  unfolding collect
  collect-Gathers [] (fs, late) w = (some [], Asks.end, rw (append-nil fs, append-nil late) refl)
  collect-Gathers (concern ∷ concerns) c w =
      ask-Gathers concern concerns c w (reviewers concern) refl (collect-Gathers concerns)

  module _ (words : Words) (repository head_sha : String) where
    -- The run that the answers make: none when a specialist raised; else those that timed out are
    -- named, and every finding of those that answered is covered by a candidate.
    abbrev pub Reports : Answers → Option SpecialistRun → Type 0
    Reports none x = x ≡ none
    Reports (some answers) x =
        (r : SpecialistRun) × (x ≡ some r)
        × (r.timed_out_concerns ≡ late_in answers)
        × All (λ f. (m : FindingCandidate) × Memᴰ m r.candidates × Covers words m f)
            (found_in answers)

    merged_run-Reports :
        (o : Answers) (x : Option Collected × World)
        → x.0 ≡ gathered ([], []) o
        → Reports o (merged_run reviewers words repository head_sha x).0
    merged_run-Reports none (none, v) h = refl
    merged_run-Reports none (some c, v) h = absurd (ground (arith, h))
    merged_run-Reports (some answers) (none, v) h = absurd (ground (arith, h))
    merged_run-Reports (some answers) (some (fs, late), v) h =
        let q = some_inj h in
        let p : fs ≡ found_in answers = ap (λ y. y.0) q in
        (
          _,
          refl,
          ap (λ y. y.1) q,
          All-each (found_in answers) (λ f i.
              (aggregate_findings-Covers words fs repository head_sha f
                (subst (Memᴰ f) (sym p) i)).0),
        )

    merged_run-world :
        (x : Option Collected × World) → x.1 ≡ (merged_run reviewers words repository head_sha x).1
    merged_run-world (none, v) = refl
    merged_run-world (some c, v) = refl

    -- When specialists are on, those of the four concerns that are there are asked in order. If one
    -- raises, the run does; if none does, the run names those that timed out, and every finding of
    -- each specialist that answered is covered by a candidate of the run.
    pub run_specialists-Asks :
        (w : World)
        → (o : Answers) × Asks specialist_concerns w o
            (run_specialists reviewers words repository head_sha true w).1
          × Reports o (run_specialists reviewers words repository head_sha true w).0
    unfolding run_specialists
    run_specialists-Asks w =
        let x = collect reviewers specialist_concerns ([], []) w in
        let (o, steps, e) = collect-Gathers specialist_concerns ([], []) w in
        (
          o,
          subst (Asks specialist_concerns w o) (merged_run-world x) steps,
          merged_run-Reports o x e,
        )
