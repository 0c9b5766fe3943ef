-- ===== src/Posting/Once.antt =====
-- One review for one key: the reviews of a pull request that carry a key's marker.
use pr_reviewer.Base.{
  refl, [], ◌∷◌, List, String, some, Bool, ℕ, ◌≡◌, ◌⊎◌, ◌≤◌, ◌++◌, arith, inl, inr, Option-cases,
  count_where, count_where-append, ◌+◌, none, find_where, find_where-none, Bool-cases,
}
use pr_reviewer.Posting.Search.{is_part}
use pr_reviewer.Posting.{
  RoutedFinding, Callers, PostedReview, ReviewSubmission, marker, filled, Answer, answered, failed,
  timed_out, public_of, submission_of,
}
use pr_reviewer.Packing.{Text, FilePatch}
use pr_reviewer.Posting.Post.{
  finish, recorded, post_review, emit, settle, existing, submit_current, looked_up, post_public,
  first_marked,
}
use pr_reviewer.Jobs.Lifecycle.{reviewed_head_is_current}

-- What is relied on of GitHub and of the caller: the reviews are listed; a submission adds at most
-- one review, with the text that was sent, and does when it is answered; nothing else adds one.
pub record IsListed {World : Type 0} (c : Callers World) (reviews : World → List PostedReview)
    : Type 0 where
  pub lists : c.list_reviews ≡ some reviews
  pub head : (w : World) → reviews (c.current_head_sha w).1 ≡ reviews w
  pub sent :
      (s : ReviewSubmission) (w : World)
      → (reviews (c.submit s w).1 ≡ reviews w)
        ⊎ ((r : PostedReview) × (r.body ≡ s.body)
            × (reviews (c.submit s w).1 ≡ reviews w ++ r ∷ []))
  pub answered_sent :
      (s : ReviewSubmission) (w w' : World) (a : PostedReview)
      → c.submit s w ≡ (answered a, w')
      → (r : PostedReview) × (r.body ≡ s.body) × (reviews w' ≡ reviews w ++ r ∷ [])
  pub recorded_post :
      (r : PostedReview) (w : World) → reviews (recorded c.record_post r w) ≡ reviews w
  pub emitted :
      (findings : List RoutedFinding) (r : PostedReview) (w : World)
      → reviews (emit c.record_event findings r w) ≡ reviews w
  pub looked_up_after :
      (key : String) (findings : List RoutedFinding) (a : PostedReview) (w : World)
      {r : PostedReview}
      → looked_up c.lookup key w ≡ some r
      → (r' : PostedReview) × (looked_up c.lookup key
            (emit c.record_event findings a (recorded c.record_post a w))
          ≡ some r')

abbrev pub is_marked : (key : String) → PostedReview → Bool
is_marked key r = is_part (marker key) r.body

-- The calls of post_review under one key, whatever they are given.
pub record Call : Type 0 where
  pub head_sha : String
  pub findings : List RoutedFinding
  pub patches : List FilePatch

module _ {World : Type 0} (t : Text) (render_hunks : FilePatch → String) (c : Callers World) where
  abbrev pub post_all : (key : String) → List Call → World → World
  post_all key [] w = w
  post_all key (a ∷ calls) w =
      post_all key calls (post_review t render_hunks c a.head_sha a.findings key a.patches w).1

module _ {World : Type 0} {c : Callers World} {reviews : World → List PostedReview}
    (gh : IsListed c reviews) (key : String) where
  abbrev pub marked : World → ℕ
  marked w = count_where (is_marked key) (reviews w)

  marked-finish :
      (findings : List RoutedFinding) (s : ReviewSubmission) (r : PostedReview) (w : World)
      → marked (finish c key findings s r w).1 ≡ marked w
  unfolding finish
  marked-finish findings s r w =
      let r' = filled key s r in
      rw (gh.emitted findings r' (recorded c.record_post r' w), gh.recorded_post r' w) refl

  marked-settle :
      (findings : List RoutedFinding) (s : ReviewSubmission) (o : Answer × World)
      → marked (settle c key findings s o).1 ≡ marked o.1
  marked-settle findings s (answered r, w) = marked-finish findings s r w
  marked-settle findings s (failed, w) = refl
  marked-settle findings s (timed_out, w) = elim (Option-cases (existing c key w)) [
    | inl e ↦ rw e refl
    | inr (r, e) ↦ rw e (marked-finish findings s r w)
  ]

  marked-submit : (s : ReviewSubmission) (w : World) → marked (c.submit s w).1 ≤ marked w + 1
  marked-submit s w = elim (gh.sent s w) [
    | inl e ↦ rw e (omega arith)
    | inr (r, same, e) ↦
        rw (e, count_where-append (is_marked key) (reviews w) (r ∷ [])) (ground arith)
  ]

  pub existing-looked_up :
      (w : World) {r : PostedReview} → looked_up c.lookup key w ≡ some r → existing c key w ≡ some r
  unfolding existing
  existing-looked_up w e = rw e refl

  pub existing-listed :
      (w : World)
      → looked_up c.lookup key w ≡ none
      → existing c key w ≡ first_marked key (reviews w)
  unfolding existing
  existing-listed w e = rw (e, gh.lists) refl

  unmarked : (w : World) → existing c key w ≡ none → marked w ≡ 0
  unmarked w h = elim (Option-cases (looked_up c.lookup key w)) [
    | inl e ↦ elim (Option-cases (find_where (is_marked key) (reviews w))) [
      | inl f ↦ find_where-none (is_marked key) (reviews w) f
      | inr (r, f) ↦ absurd (let g = rw (existing-listed w e, f) at h in cc)
    ]
    | inr (r, e) ↦ absurd (let g = rw (existing-looked_up w e) at h in cc)
  ]

  pub marked_found : (w : World) → 1 ≤ marked w → (r : PostedReview) × (existing c key w ≡ some r)
  unfolding existing
  marked_found w h = elim (Option-cases (existing c key w)) [
    | inl e ↦ absurd (omega (arith, unmarked w e))
    | inr found ↦ found
  ]

  -- A submission is made when no review has the marker.
  marked-submit_current :
      (head_sha : String) (findings : List RoutedFinding) (s : ReviewSubmission) (w : World)
      → marked w ≡ 0
      → marked (submit_current c key head_sha findings s w).1 ≤ 1
  unfolding submit_current
  marked-submit_current head_sha findings s w z =
      let (live, w') = c.current_head_sha w in
      let same : marked w' ≡ 0 = rw (gh.head w) z in
      elim (Bool-cases (reviewed_head_is_current head_sha live)) [
        | inl e ↦
            rw (e, marked-settle findings s (c.submit s w'))
              (omega (arith, marked-submit s w', same))
        | inr e ↦ rw e (omega (arith, same))
      ]

  marked-post_public :
      (t : Text) (render_hunks : FilePatch → String) (head_sha : String)
      (findings public : List RoutedFinding) (patches : List FilePatch) (w : World)
      → marked w ≡ 0
      → marked (post_public t render_hunks c key head_sha findings public patches w).1 ≤ 1
  marked-post_public t render_hunks head_sha findings [] patches w z = omega (arith, z)
  marked-post_public t render_hunks head_sha findings (f ∷ fs) patches w z =
      marked-submit_current head_sha findings
        (submission_of t render_hunks patches key head_sha (f ∷ fs)) w z

  marked-post_review :
      (t : Text) (render_hunks : FilePatch → String) (a : Call) (w : World)
      → marked w ≤ 1
      → marked (post_review t render_hunks c a.head_sha a.findings key a.patches w).1 ≤ 1
  unfolding post_review
  marked-post_review t render_hunks a w u = elim (Option-cases (existing c key w)) [
    | inl e ↦ rw e (
        marked-post_public t render_hunks a.head_sha a.findings (public_of a.findings) a.patches w
          (unmarked w e))
    | inr (r, e) ↦ rw e u
  ]

  -- However often a review is posted under one key, at most one review of the pull request carries
  -- the key's marker, if at most one did before.
  pub post_all_once :
      (t : Text) (render_hunks : FilePatch → String) (calls : List Call) (w : World)
      → marked w ≤ 1
      → marked (post_all t render_hunks c key calls w) ≤ 1
  post_all_once t render_hunks [] w u = u
  post_all_once t render_hunks (a ∷ calls) w u =
      post_all_once t render_hunks calls
        (post_review t render_hunks c a.head_sha a.findings key a.patches w).1
        (marked-post_review t render_hunks a w u)
