-- ===== src/Posting.antt =====
-- The posting of a review: src/pr_reviewer/github/post_review.py. GitHub, the local record and the
-- event log are the caller's functions on a world of its own; the text functions come as `Text`.
pub mod Search
pub mod Post
pub mod Once
pub mod Again
pub mod Safe
use Prim.Native.String.{◌++◌ as append}
use pr_reviewer.Base.{
  refl, [], ◌∷◌, List, String, Option, some, none, Bool, ℕ, if◌then◌else◌, str_eq, find_where,
  false, true, map, ◌==◌, ◌||◌, ◌&&◌, length,
}
use pr_reviewer.Notify.{Confidentiality}
use pr_reviewer.Notify.Dispatch.{is_restricted}
use pr_reviewer.Packing.{Text, FilePatch}
use pr_reviewer.Packing.Hunks.{new_side_numbers}
use pr_reviewer.Jobs.Lifecycle.{reviewed_head_is_current}
use pr_reviewer.Evals.{is_nil}
use pr_reviewer.Posting.Search.{is_part}

pub data FindingStatus : Type 0 where
  draft queued_for_human posted rejected disputed : FindingStatus

pub record RouteDecision : Type 0 where
  pub allow_public_post : Bool
  pub confidentiality : Confidentiality

-- a finding, the fields that are read here, with its decision
pub record RoutedFinding : Type 0 where
  pub review_job_id : String
  pub file_path : String
  pub line_start : ℕ
  pub title : String
  pub status : FindingStatus
  pub decision : RouteDecision

-- the side is always RIGHT
pub record ReviewComment : Type 0 where
  pub path : String
  pub line : ℕ
  pub body : String

pub record ReviewSubmission : Type 0 where
  pub commit_id : String
  pub body : String
  pub comments : List ReviewComment

pub record PostedReview : Type 0 where
  pub github_review_id : Option String
  pub comment_ids : List String
  pub response_status : Option ℕ
  pub body : String
  pub comments : List ReviewComment
  pub summary_only : Bool
  pub idempotency_key : String

-- the payload of github.review_posted
pub record ReviewPosted : Type 0 where
  pub github_review_id : String
  pub response_status : ℕ
  pub comment_count : ℕ

-- what `submit` does: it returns, it raises httpx.TimeoutException, or it raises something else
pub data Answer : Type 0 where
  answered : PostedReview → Answer
  timed_out : Answer
  failed : Answer

-- the functions that the caller gives, those of one pull request; the optional ones may be None
pub record Callers (World : Type 0) : Type 0 where
  pub current_head_sha : World → String × World
  pub submit : ReviewSubmission → World → Answer × World
  pub list_reviews : Option (World → List PostedReview)
  pub lookup : Option (String → World → Option PostedReview)
  pub record_post : Option (PostedReview → World → World)
  pub record_event : Option (String → ReviewPosted → World → World)

-- what post_review returns or raises
pub data PostResult : Type 0 where
  returned : Option PostedReview → PostResult
  stale_head : PostResult
  submit_timed_out : PostResult
  submit_failed : PostResult

abbrev pub is_rejected : FindingStatus → Bool
is_rejected rejected = true
is_rejected _ = false

-- _is_public
abbrev pub is_public : RoutedFinding → Bool
is_public f =
    if is_rejected f.status
    then false
    else if is_restricted f.decision.confidentiality
    then false
    else f.decision.allow_public_post

abbrev pub public_of : List RoutedFinding → List RoutedFinding
public_of [] = []
public_of (f ∷ fs) = let rest = public_of fs in if is_public f then f ∷ rest else rest

-- _marker
unfoldable pub marker : (key : String) → String
marker key = append "<!-- pr-reviewer:post:" (append key " -->")

abbrev pub is_number : ℕ → List ℕ → Bool
is_number n [] = false
is_number n (m ∷ ms) = (n == m) || is_number n ms

module _ (t : Text) (render_hunks : FilePatch → String) (patches : List FilePatch) where
  abbrev pub comment_on : RoutedFinding → FilePatch → ReviewComment
  comment_on f patch = record { path = patch.path; line = f.line_start; body = f.title }

  -- _anchor
  abbrev pub anchor_in : RoutedFinding → Option FilePatch → Option ReviewComment
  anchor_in f none = none
  anchor_in f (some patch) =
      if is_number f.line_start (new_side_numbers t (render_hunks patch))
      then some (comment_on f patch)
      else none

  unfoldable pub anchor : RoutedFinding → Option ReviewComment
  anchor f = anchor_in f (find_where (λ p. str_eq p.path f.file_path) patches)

  abbrev pub cons_comment : Option ReviewComment → List ReviewComment → List ReviewComment
  cons_comment none comments = comments
  cons_comment (some comment) comments = comment ∷ comments

  abbrev pub inline_of : List RoutedFinding → List ReviewComment
  inline_of [] = []
  inline_of (f ∷ fs) = cons_comment (anchor f) (inline_of fs)

  abbrev pub body_of : (key : String) → List RoutedFinding → String
  body_of key fs = append (marker key) (append "\n" (t.join (map (λ f. append "- " f.title) fs)))

  unfoldable pub submission_of : (key head_sha : String) → List RoutedFinding → ReviewSubmission
  submission_of key head_sha fs = record {
    commit_id = head_sha;
    body = body_of key fs;
    comments = inline_of fs;
  }

-- replace(…): the body and the comments of GitHub's answer, unless they are empty
unfoldable pub filled : (key : String) → ReviewSubmission → PostedReview → PostedReview
filled key s review = record review {
  idempotency_key = key;
  summary_only = is_nil s.comments;
  body = if str_eq review.body "" then s.body else review.body;
  comments = if is_nil review.comments then s.comments else review.comments;
}
