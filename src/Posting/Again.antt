-- ===== src/Posting/Again.antt =====
-- Posting a second time under the key of a posted review.
use Prim.Native.String.{◌++◌ as append}
use pr_reviewer.Posting.Search.{is_part-append}
use pr_reviewer.Base.{
  refl, [], ◌∷◌, List, String, some, ◌≡◌, arith, inl, inr, Bool-cases, Option-cases,
  count_where-append, ◌∙◌,
}
use pr_reviewer.Posting.{
  Callers, PostedReview, ReviewSubmission, RoutedFinding, filled, marker, submission_of, returned,
  Answer, answered, failed, timed_out, public_of,
}
use pr_reviewer.Posting.Once.{
  IsListed, existing-looked_up, existing-listed, marked_found, is_marked, Call,
}
use pr_reviewer.Posting.Post.{
  finish, existing, emit, recorded, looked_up, submit_current, post_review, settle, post_public,
}
use pr_reviewer.Packing.{Text, FilePatch}
use pr_reviewer.Jobs.Lifecycle.{reviewed_head_is_current}

module _ {World : Type 0} {c : Callers World} {reviews : World → List PostedReview}
    (gh : IsListed c reviews) (key : String) where
  abbrev Known : World → Type 0
  Known w = (r : PostedReview) × (existing c key w ≡ some r)

  Known-finish :
      (findings : List RoutedFinding) (s : ReviewSubmission) (a : PostedReview) (w : World)
      → Known w
      → Known (finish c key findings s a w).1
  unfolding finish
  Known-finish findings s a w (r, h) =
      let a' = filled key s a in
      let w' = emit c.record_event findings a' (recorded c.record_post a' w) in
      let same : reviews w' ≡ reviews w =
        rw (gh.emitted findings a' (recorded c.record_post a' w), gh.recorded_post a' w) refl in
      elim (Option-cases (looked_up c.lookup key w')) [
        | inr (r', e) ↦ (r', existing-looked_up gh key w' e)
        | inl e ↦ elim (Option-cases (looked_up c.lookup key w)) [
          | inr (q, f) ↦
              absurd
                (let (x, g) = gh.looked_up_after key findings a' w f in let k = rw e at g in cc)
          | inl f ↦
              let k = rw (existing-listed gh key w f) at h in
              (r, existing-listed gh key w' e ∙ rw same k)
        ]
      ]

  Known-answered :
      (s : ReviewSubmission) (w w' : World) (a : PostedReview)
      → (rest : String) → s.body ≡ append (marker key) rest
      → c.submit s w ≡ (answered a, w')
      → Known w'
  Known-answered s w w' a rest text h =
      let (r, same, e) = gh.answered_sent s w w' a h in
      marked_found gh key w' (
        rw
          (
            e,
            count_where-append (is_marked key) (reviews w) (r ∷ []),
            same,
            text,
            is_part-append (marker key) rest,
          )
          (omega arith))

  -- Once a post has returned a review, it is found.
  Known-settle :
      (findings : List RoutedFinding) (s : ReviewSubmission) (w : World) (rest : String)
      → s.body ≡ append (marker key) rest
      → {r : PostedReview} → (o : Answer × World) → c.submit s w ≡ o
      → (settle c key findings s o).0 ≡ returned (some r)
      → Known (settle c key findings s o).1
  Known-settle findings s w rest text (answered a, w') e h =
      Known-finish findings s a w' (Known-answered s w w' a rest text e)
  Known-settle findings s w rest text (failed, w') e h = absurd (cc)
  Known-settle findings s w rest text (timed_out, w') e h =
      elim (Option-cases (existing c key w')) [
        | inl f ↦ absurd (let k = rw f at h in cc)
        | inr (a, f) ↦ rw f (Known-finish findings s a w' (a, f))
      ]

  Known-submit_current :
      (head_sha : String) (findings : List RoutedFinding) (s : ReviewSubmission) (rest : String)
      → s.body ≡ append (marker key) rest
      → (w : World) {r : PostedReview}
      → (submit_current c key head_sha findings s w).0 ≡ returned (some r)
      → Known (submit_current c key head_sha findings s w).1
  unfolding submit_current
  Known-submit_current head_sha findings s rest text w {r} h =
      let (live, w') = c.current_head_sha w in
      elim (Bool-cases (reviewed_head_is_current head_sha live)) [
        | inl e ↦
            let k = rw e at h in
            rw e (Known-settle findings s w' rest text {r = r} (c.submit s w') refl k)
        | inr e ↦ absurd (let k = rw e at h in cc)
      ]

  Known-post_public :
      (t : Text) (render_hunks : FilePatch → String) (head_sha : String)
      (findings public : List RoutedFinding) (patches : List FilePatch) (w : World)
      {r : PostedReview}
      → (post_public t render_hunks c key head_sha findings public patches w).0 ≡ returned (some r)
      → Known (post_public t render_hunks c key head_sha findings public patches w).1
  unfolding submission_of
  Known-post_public t render_hunks head_sha findings [] patches w h = absurd cc
  Known-post_public t render_hunks head_sha findings (f ∷ fs) patches w {r} h =
      Known-submit_current head_sha findings
        (submission_of t render_hunks patches key head_sha (f ∷ fs)) _ refl w {r = r} h

  Known-post_review :
      (t : Text) (render_hunks : FilePatch → String) (a : Call) (w : World) {r : PostedReview}
      → (post_review t render_hunks c a.head_sha a.findings key a.patches w).0 ≡ returned (some r)
      → Known (post_review t render_hunks c a.head_sha a.findings key a.patches w).1
  unfolding post_review
  Known-post_review t render_hunks a w {r} h = elim (Option-cases (existing c key w)) [
    | inl e ↦
        let k = rw e at h in
        rw e (
          Known-post_public t render_hunks a.head_sha a.findings (public_of a.findings) a.patches w
            {r = r} k)
    | inr (q, e) ↦ (q, rw (e, e) refl)
  ]

  post_review-existing :
      (t : Text) (render_hunks : FilePatch → String) (b : Call) (w : World) {r : PostedReview}
      → existing c key w ≡ some r
      → post_review t render_hunks c b.head_sha b.findings key b.patches w ≡ (returned (some r), w)
  unfolding post_review
  post_review-existing t render_hunks b w e = rw e refl

  -- After a post that returned a review, a post under the same key, of whatever findings, returns a
  -- review and changes nothing.
  pub post_review_again :
      (t : Text) (render_hunks : FilePatch → String) (a b : Call) (w : World) {r : PostedReview}
      → (post_review t render_hunks c a.head_sha a.findings key a.patches w).0 ≡ returned (some r)
      → let w' = (post_review t render_hunks c a.head_sha a.findings key a.patches w).1 in
        (r' : PostedReview) × (post_review t render_hunks c b.head_sha b.findings key b.patches w'
          ≡ (returned (some r'), w'))
  post_review_again t render_hunks a b w {r} h =
      let w' = (post_review t render_hunks c a.head_sha a.findings key a.patches w).1 in
      let (r', known) = Known-post_review t render_hunks a w {r = r} h in
      (r', post_review-existing t render_hunks b w' known)
