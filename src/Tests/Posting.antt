-- ===== src/Tests/Posting.antt =====
-- A pull request with one review to post: a public finding, and one that is restricted.
use mathlib.Core.List.{Memᴰ}
use pr_reviewer.Notify.{Confidentiality}
use pr_reviewer.Posting.Post.{finish}
use pr_reviewer.Base.{
  refl, [], ◌∷◌, List, String, Option, some, none, ◌≡◌, false, All, str_eq, ◌++◌, inl, inr,
  find_where, ap, sym, All-append, ◌≤◌, Bool-cases, true, arith,
}
use pr_reviewer.Posting.{
  PostedReview, ReviewSubmission, ReviewComment, RoutedFinding, Callers, answered, draft, returned,
  submission_of, anchor, filled, marker,
}
use pr_reviewer.Posting.Post.{post_review, existing, submit_current}
use pr_reviewer.Notify.{Confidentiality, ordinary, restricted}
use pr_reviewer.Posting.Once.{IsListed, Call, marked, post_all, post_all_once}
use pr_reviewer.Posting.Safe.{IsKept, IsAnchored, post_review_keeps}
use pr_reviewer.Packing.{FilePatch}
use pr_reviewer.Tests.Packing.{patch_of, python}
use pr_reviewer.Packing.Hunks.{
  render_hunks, new_side_numbers, side_numbers, render_lines, render_blocks, split_lines,
  parse_hunks, parse_lines,
}
use pr_reviewer.Posting.Again.{post_review_again}
use pr_reviewer.Posting.Search.{is_part}
use pr_reviewer.Jobs.Lifecycle.{reviewed_head_is_current}
use pr_reviewer.Notify.Dispatch.{is_restricted}

abbrev rendered : FilePatch → String
rendered = render_hunks python

-- the head and the reviews of the pull request, and the caller's log
record Desk : Type 0 where
  head : String
  reviews : List PostedReview
  log : List PostedReview

abbrev review_of : ReviewSubmission → PostedReview
review_of s = record {
  github_review_id = some "77";
  comment_ids = [];
  response_status = some 200;
  body = s.body;
  comments = s.comments;
  summary_only = false;
  idempotency_key = "";
}

abbrev logged : String → Desk → Option PostedReview
logged key w = find_where (λ r. str_eq r.idempotency_key key) w.log

abbrev callers : Callers Desk
callers = record {
  current_head_sha = λ w. (w.head, w);
  submit = λ s w. (answered (review_of s), record w { reviews = w.reviews ++ review_of s ∷ [] });
  list_reviews = some (λ w. w.reviews);
  lookup = some logged;
  record_post = some (λ r w. record w { log = r ∷ w.log });
  record_event = none;
}

still_logged :
    (key : String) (a : PostedReview) (log : List PostedReview) {r : PostedReview}
    → find_where (λ x. str_eq x.idempotency_key key) log ≡ some r
    → (r' : PostedReview) × (find_where (λ x. str_eq x.idempotency_key key) (a ∷ log) ≡ some r')
still_logged key a log {r} h = elim (Bool-cases (str_eq a.idempotency_key key)) [
  | inl e ↦ (a, rw e refl)
  | inr e ↦ (r, rw e h)
]

callers-IsListed : IsListed callers (λ w. w.reviews)
callers-IsListed = record {
  lists = refl;
  head = λ w. refl;
  sent = λ s w. inr (review_of s, refl, refl);
  answered_sent = λ s w w' a h. (review_of s, refl, ap (λ p. p.1.reviews) (sym h));
  recorded_post = λ r w. refl;
  emitted = λ findings r w. refl;
  looked_up_after = λ key findings a w h. still_logged key a w.log h;
}

abbrev finding_at : (path : String) → Confidentiality → RoutedFinding
finding_at path confidentiality = record {
  review_job_id = "job";
  file_path = path;
  line_start = 2;
  title = "leak";
  status = draft;
  decision = record { allow_public_post = true; confidentiality = confidentiality };
}

abbrev routed : List RoutedFinding
routed = finding_at "a.py" ordinary ∷ finding_at "b.py" restricted ∷ []

abbrev patches : List FilePatch
patches = patch_of "a.py" ∷ patch_of "b.py" ∷ []

abbrev call : Call
call = record { head_sha = "head"; findings = routed; patches = patches }

abbrev fresh : Desk
fresh = record { head = "head"; reviews = []; log = [] }

post_all_once_example :
    marked callers-IsListed "k" (post_all python rendered callers "k" (call ∷ call ∷ []) fresh) ≤ 1
post_all_once_example =
    post_all_once callers-IsListed "k" python rendered (call ∷ call ∷ []) fresh (omega arith)

abbrev a_comment : ReviewComment
a_comment = record { path = "a.py"; line = 2; body = "leak" }

abbrev posted_review : PostedReview
posted_review = record {
  github_review_id = some "77";
  comment_ids = [];
  response_status = some 200;
  body = "<!-- pr-reviewer:post:k -->\n- leak";
  comments = a_comment ∷ [];
  summary_only = false;
  idempotency_key = "k";
}

first_post :
    (post_review python rendered callers "head" routed "k" patches fresh).0
    ≡ returned (some posted_review)
unfolding post_review existing submit_current submission_of anchor finish filled marker is_part
    new_side_numbers side_numbers render_hunks render_lines render_blocks split_lines parse_hunks
    parse_lines reviewed_head_is_current
first_post = refl

abbrev after : Desk
after = (post_review python rendered callers "head" routed "k" patches fresh).1

post_review_again_example :
    (r : PostedReview) × (post_review python rendered callers "newer" [] "k" [] after
      ≡ (returned (some r), after))
post_review_again_example =
    post_review_again callers-IsListed "k" python rendered call
      (record { head_sha = "newer"; findings = []; patches = [] }) fresh {r = posted_review}
      first_post

-- No review has a comment on b.py.
abbrev HasNone : Desk → Type 0
HasNone w = All (λ r. All (λ x. str_eq x.path "b.py" ≡ false) r.comments) w.reviews

not_public_on_b :
    (f : RoutedFinding)
    → Memᴰ f routed
    → is_restricted f.decision.confidentiality ≡ false
    → str_eq f.file_path "b.py" ≡ false
not_public_on_b f (Memᴰ.head e) p = rw e refl
not_public_on_b f (Memᴰ.tail (Memᴰ.head e)) p = absurd (let k = rw e at p in cc)
not_public_on_b f (Memᴰ.tail (Memᴰ.tail m)) p = elim m [ ]

none_on_b :
    (comments : List ReviewComment)
    → All (IsAnchored python rendered patches routed) comments
    → All (λ x. str_eq x.path "b.py" ≡ false) comments
none_on_b [] h = tt
none_on_b (x ∷ xs) h =
    (rw h.0.path (not_public_on_b h.0.finding h.0.given h.0.ordinary_content), none_on_b xs h.1)

kept : IsKept python rendered patches routed "head" callers HasNone
kept = record {
  head = λ w h. h;
  recording = λ r w h. h;
  emitting = λ r w h. h;
  submitting = λ s w e fit h.
      All-append _ w.reviews (review_of s ∷ []) h (none_on_b s.comments fit.comments, tt);
}

post_review_keeps_example :
    HasNone (post_review python rendered callers "head" routed "k" patches fresh).1
post_review_keeps_example = post_review_keeps kept "k" fresh tt
