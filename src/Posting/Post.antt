-- ===== src/Posting/Post.antt =====
-- github/post_review.py: post_review.
use pr_reviewer.Base.{
  [], ◌∷◌, List, String, Option, some, none, ℕ, if◌then◌else◌, find_where, length,
}
use pr_reviewer.Packing.{Text, FilePatch}
use pr_reviewer.Jobs.Lifecycle.{reviewed_head_is_current}
use pr_reviewer.Posting.{
  PostedReview, marker, Callers, RoutedFinding, ReviewSubmission, Answer, PostResult, public_of,
  submission_of, filled, answered, timed_out, failed, returned, stale_head, submit_timed_out,
  submit_failed, ReviewPosted,
}
use pr_reviewer.Posting.Search.{is_part}

-- the loop of _existing over the reviews that GitHub lists
abbrev pub with_key : String → Option PostedReview → Option PostedReview
with_key key none = none
with_key key (some r) = some (record r { idempotency_key = key })

abbrev pub first_marked : (key : String) → List PostedReview → Option PostedReview
first_marked key reviews = with_key key (find_where (λ r. is_part (marker key) r.body) reviews)

abbrev pub or_listed : (found later : Option PostedReview) → Option PostedReview
or_listed none later = later
or_listed (some r) later = some r

abbrev pub job_of : List RoutedFinding → String
job_of [] = ""
job_of (f ∷ fs) = f.review_job_id

module _ {World : Type 0} where
  abbrev pub looked_up :
      Option (String → World → Option PostedReview) → (key : String) → World → Option PostedReview
  looked_up none key w = none
  looked_up (some lookup) key w = lookup key w

  abbrev pub listed :
      Option (World → List PostedReview) → (key : String) → World → Option PostedReview
  listed none key w = none
  listed (some list_reviews) key w = first_marked key (list_reviews w)

  -- _existing
  unfoldable pub existing : Callers World → (key : String) → World → Option PostedReview
  existing c key w = or_listed (looked_up c.lookup key w) (listed c.list_reviews key w)

  abbrev pub recorded : Option (PostedReview → World → World) → PostedReview → World → World
  recorded none r w = w
  recorded (some record_post) r w = record_post r w

  abbrev pub emit_with :
      Option String
      → Option ℕ
      → (String → ReviewPosted → World → World)
      → (job_id : String) (comment_count : ℕ) → World
      → World
  emit_with (some id) (some status) record_event job_id comment_count w =
      record_event job_id
        (record { github_review_id = id; response_status = status; comment_count = comment_count })
        w
  emit_with _ _ record_event job_id comment_count w = w

  -- _emit
  abbrev pub emit :
      Option (String → ReviewPosted → World → World)
      → List RoutedFinding
      → PostedReview
      → World
      → World
  emit none findings r w = w
  emit (some record_event) findings r w =
      emit_with r.github_review_id r.response_status record_event (job_of findings)
        (length r.comment_ids) w

  -- the record and the event of a review that is on GitHub
  unfoldable pub finish :
      Callers World
      → (key : String) → List RoutedFinding
      → ReviewSubmission
      → PostedReview
      → World
      → PostResult × World
  finish c key findings s review w =
      let r = filled key s review in
      (returned (some r), emit c.record_event findings r (recorded c.record_post r w))

  abbrev pub recover :
      Callers World
      → (key : String) → List RoutedFinding
      → ReviewSubmission
      → Option PostedReview
      → World
      → PostResult × World
  recover c key findings s none w = (submit_timed_out, w)
  recover c key findings s (some r) w = finish c key findings s r w

  abbrev pub settle :
      Callers World
      → (key : String) → List RoutedFinding
      → ReviewSubmission
      → Answer × World
      → PostResult × World
  settle c key findings s (answered r, w) = finish c key findings s r w
  settle c key findings s (timed_out, w) = recover c key findings s (existing c key w) w
  settle c key findings s (failed, w) = (submit_failed, w)

  -- from the submission on: the head is read just before the call
  unfoldable pub submit_current :
      Callers World
      → (key head_sha : String) → List RoutedFinding
      → ReviewSubmission
      → World
      → PostResult × World
  submit_current c key head_sha findings s w =
      let (live, w') = c.current_head_sha w in
      if reviewed_head_is_current head_sha live
      then settle c key findings s (c.submit s w')
      else (stale_head, w')

module _ {World : Type 0} (t : Text) (render_hunks : FilePatch → String) where
  abbrev pub post_public :
      Callers World
      → (key head_sha : String) → (findings public : List RoutedFinding) → List FilePatch
      → World
      → PostResult × World
  post_public c key head_sha findings [] patches w = (returned none, w)
  post_public c key head_sha findings (f ∷ fs) patches w =
      submit_current c key head_sha findings
        (submission_of t render_hunks patches key head_sha (f ∷ fs)) w

  -- a review that is there is returned
  abbrev pub unless_existing : Option PostedReview → PostResult × World → World → PostResult × World
  unless_existing none result w = result
  unless_existing (some r) result w = (returned (some r), w)

  unfoldable pub post_review :
      Callers World
      → (head_sha : String) → List RoutedFinding
      → (key : String) → List FilePatch
      → World
      → PostResult × World
  post_review c head_sha findings key patches w =
      unless_existing (existing c key w)
        (post_public c key head_sha findings (public_of findings) patches w) w
