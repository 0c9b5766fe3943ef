-- ===== src/Reviewer/Review.antt =====
-- reviewer/review_pull_request.py: the lease is asked for once, the model is called once, and the
-- drafts it answers with are selected.
use pr_reviewer.Base.{
  ℕ, List, Bool, String, Option, str_eq, some, true, false, not, ◌&&◌, [], suc, if◌then◌else◌, none,
  ◌∷◌, ◌==◌, ltb, ◌||◌, leb, ◌+◌, zero, ◌-◌,
}
use pr_reviewer.Packing.{Text, ReviewContextItem, PackedDiff}
use pr_reviewer.Evals.{is_nil}
use pr_reviewer.Aggregate.{FindingCandidate}
use pr_reviewer.Reviewer.{
  Str, Snapshot, Reviewed, ReviewOutcome, call_raised, not_wrapped, reviewed, lease_lost,
}
use pr_reviewer.Packing.Hunks.{new_side_numbers}
use pr_reviewer.Posting.{is_number}
use pr_reviewer.Jobs.Runner.{LeaseState, active}
use pr_reviewer.Reviewer.Prompt.{prompt_content}

abbrev pub max_finding_drafts : ℕ
max_finding_drafts = 32

-- the tuple `key`
pub record Key : Type 0 where
  pub file_path : String
  pub line_start : ℕ
  pub line_end : ℕ
  pub title : String

abbrev pub key_of : FindingCandidate → Key
key_of draft = record {
  file_path = draft.file_path;
  line_start = draft.line_start;
  line_end = draft.line_end;
  title = draft.title;
}

abbrev pub key_eq : Key → Key → Bool
key_eq a b =
    str_eq a.file_path b.file_path
    && (a.line_start == b.line_start && (a.line_end == b.line_end && str_eq a.title b.title))

-- `key in seen`
abbrev pub is_seen : Key → List Key → Bool
is_seen k [] = false
is_seen k (s ∷ ss) = key_eq k s || is_seen k ss

-- FindingDraft's constraints on the fields that are read here
abbrev pub is_valid : FindingCandidate → Bool
is_valid draft =
    not (str_eq draft.category "")
    && (not (str_eq draft.file_path "")
        && (ltb 0 draft.line_start
            && (ltb 0 draft.line_end
                && (not (str_eq draft.title "")
                    && (not (str_eq draft.rationale "")
                        && (not (is_nil draft.evidence) && leb draft.line_start draft.line_end))))))

-- FindingDraft.model_validate: `fields` reads the fields of a JSON value, with none when it has
-- other ones or of other types
abbrev pub if_valid : Option FindingCandidate → Option FindingCandidate
if_valid none = none
if_valid (some draft) = if is_valid draft then some draft else none

-- all(line in numbers for line in range(line, line + count))
abbrev pub all_lines : List ℕ → (line count : ℕ) → Bool
all_lines numbers line zero = true
all_lines numbers line (suc n) = is_number line numbers && all_lines numbers (line + 1) n

-- `not numbers`: none, or no number
abbrev pub covers_draft : FindingCandidate → Option (List ℕ) → Bool
covers_draft draft none = false
covers_draft draft (some numbers) =
    not (is_nil numbers)
    && all_lines numbers draft.line_start (draft.line_end + 1 - draft.line_start)

module _ (t : Text) where
  -- lines_by_path.get: of items with one path, the last one's lines
  abbrev pub or_numbers : Option (List ℕ) → Option (List ℕ) → Option (List ℕ)
  or_numbers none earlier = earlier
  or_numbers (some numbers) earlier = some numbers

  unfoldable pub lines_by_path : List ReviewContextItem → (path : String) → Option (List ℕ)
  lines_by_path [] path = none
  lines_by_path (item ∷ items) path =
      or_numbers (lines_by_path items path)
        (if str_eq item.file_path path then some (new_side_numbers t item.content) else none)

  abbrev pub in_changed_diff : List ReviewContextItem → FindingCandidate → Bool
  in_changed_diff items draft = covers_draft draft (lines_by_path items draft.file_path)

  module _ {Raw : Type 0} (fields : Raw → Option FindingCandidate)
      (items : List ReviewContextItem) where
    -- the rest of the loop's body, for a draft that is valid
    abbrev pub select :
        Option FindingCandidate
        → (taken : ℕ) (seen : List Key) → (ℕ → List Key → List FindingCandidate)
        → List FindingCandidate
    select none taken seen rest = rest taken seen
    select (some draft) taken seen rest =
        if not (in_changed_diff items draft)
        then rest taken seen
        else if is_seen (key_of draft) seen
        then rest taken seen
        else draft
          ∷ (if leb max_finding_drafts (taken + 1)
              then []
              else rest (taken + 1) (key_of draft ∷ seen))

    unfoldable pub select_from : List Raw → (taken : ℕ) (seen : List Key) → List FindingCandidate
    select_from [] taken seen = []
    select_from (raw ∷ raws) taken seen =
        let rest = select_from raws in select (if_valid (fields raw)) taken seen rest

    -- _candidates_from_parsed; none when the answer is no dict or has no list of findings
    unfoldable pub candidates_from_parsed : Option (List Raw) → List FindingCandidate
    candidates_from_parsed none = []
    candidates_from_parsed (some raws) = select_from raws 0 []

  module _ {Raw World : Type 0} (fields : Raw → Option FindingCandidate) (s : Str)
      (complete_json : (prompt_content : String) → World → Option (Option (List Raw)) × World)
      (snapshot : Snapshot) (packed : PackedDiff) (context : List String) where
    abbrev pub outcome : List FindingCandidate → (cancelled : Bool) → ReviewOutcome
    outcome candidates cancelled = record {
      candidates = candidates;
      covers_all_changed_files = packed.covers_all_changed_files;
      omitted_files = packed.omitted_files;
      cancelled = cancelled;
    }

    abbrev pub after_model : Option (Option (List Raw)) × World → Reviewed × World
    after_model (none, w) = (call_raised, w)
    after_model (some parsed, w) =
        (reviewed (outcome (candidates_from_parsed fields packed.items parsed) false), w)

    abbrev pub call_model : Option String → World → Reviewed × World
    call_model none w = (not_wrapped, w)
    call_model (some prompt) w = after_model (complete_json prompt w)

    unfoldable pub review_now : World → Reviewed × World
    review_now w = call_model (prompt_content s t snapshot packed context) w

    abbrev pub after_heartbeat : Option LeaseState × World → Reviewed × World
    after_heartbeat (none, w) = (call_raised, w)
    after_heartbeat (some LeaseState.cancelled, w) = (reviewed (outcome [] true), w)
    after_heartbeat (some active, w) = review_now w
    after_heartbeat (some LeaseState.invalid_or_expired, w) =
        (lease_lost LeaseState.invalid_or_expired, w)

    unfoldable pub review_pull_request :
        (heartbeat : Option (World → Option LeaseState × World)) → World → Reviewed × World
    review_pull_request none w = review_now w
    review_pull_request (some heartbeat) w = after_heartbeat (heartbeat w)
