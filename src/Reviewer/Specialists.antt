-- ===== src/Reviewer/Specialists.antt =====
-- reviewer/specialists.py: the findings of the specialists that answer, merged.
use pr_reviewer.Base.{String, List, Option, ◌∷◌, ◌++◌, [], some, Bool, none, if◌then◌else◌, not}
use pr_reviewer.Aggregate.{FindingCandidate}
use pr_reviewer.Aggregate.{Words, aggregate_findings}

-- what a call of a specialist does; another exception than SpecialistTimeout leaves run_specialists
pub data SpecialistAnswer : Type 0 where
  found : List FindingCandidate → SpecialistAnswer
  timed_out : SpecialistAnswer
  raised : SpecialistAnswer

pub record SpecialistRun : Type 0 where
  pub candidates : List FindingCandidate
  pub timed_out_concerns : List String
  pub missing_concerns : List String

abbrev pub specialist_concerns : List String
specialist_concerns = "security" ∷ "correctness" ∷ "tests" ∷ "docs" ∷ []

-- what the loop has collected, and who timed out
abbrev pub Collected : Type 0
Collected = List FindingCandidate × List String

module _ {World : Type 0} (reviewers : String → Option (World → SpecialistAnswer × World)) where
  abbrev pub cons_missing :
      String → Option (World → SpecialistAnswer × World) → List String → List String
  cons_missing concern none rest = concern ∷ rest
  cons_missing concern (some reviewer) rest = rest

  abbrev pub missing_of : List String → List String
  missing_of [] = []
  missing_of (concern ∷ concerns) = cons_missing concern (reviewers concern) (missing_of concerns)

  abbrev pub after_answer :
      (concern : String)
      → SpecialistAnswer × World
      → Collected
      → (Collected → World → Option Collected × World)
      → Option Collected × World
  after_answer concern (found fs, w) (collected, late) rest = rest (collected ++ fs, late) w
  after_answer concern (timed_out, w) (collected, late) rest =
      rest (collected, late ++ concern ∷ []) w
  after_answer concern (raised, w) c rest = (none, w)

  abbrev pub ask :
      (concern : String)
      → Option (World → SpecialistAnswer × World)
      → Collected
      → World
      → (Collected → World → Option Collected × World)
      → Option Collected × World
  ask concern none c w rest = rest c w
  ask concern (some reviewer) c w rest = after_answer concern (reviewer w) c rest

  unfoldable pub collect : List String → Collected → World → Option Collected × World
  collect [] c w = (some c, w)
  collect (concern ∷ concerns) c w =
      let rest = collect concerns in ask concern (reviewers concern) c w rest

  module _ (words : Words) (repository head_sha : String) where
    abbrev pub merged_run : Option Collected × World → Option SpecialistRun × World
    merged_run (none, w) = (none, w)
    merged_run (some (collected, late), w) = (
      some (record {
        candidates = aggregate_findings words collected repository head_sha;
        timed_out_concerns = late;
        missing_concerns = missing_of specialist_concerns;
      }),
      w,
    )

    unfoldable pub run_specialists : (specialist_mode : Bool) → World → Option SpecialistRun × World
    run_specialists specialist_mode w =
        if not specialist_mode
        then (some (record { candidates = []; timed_out_concerns = []; missing_concerns = [] }), w)
        else merged_run (collect specialist_concerns ([], []) w)
