-- ===== src/Posting/Safe.antt =====
-- What post_review submits, and when.
use mathlib.Core.List.{Memᴰ}
use pr_reviewer.Base.{
  refl, List, String, some, ◌≡◌, inl, inr, true, Bool-cases, Option-cases, str_eq_iff, find_where,
  str_eq, some_inj, subst, find_where_passes, All, ◌∷◌, sym, [], false,
}
use pr_reviewer.Packing.{Text, FilePatch}
use pr_reviewer.Posting.{
  anchor, RoutedFinding, is_public, ReviewComment, is_number, ReviewSubmission, Callers,
  submission_of, Answer, PostedReview, inline_of, public_of, filled, answered, failed, timed_out,
  is_rejected,
}
use pr_reviewer.Packing.Hunks.{new_side_numbers}
use pr_reviewer.Posting.Post.{
  submit_current, finish, post_review, recorded, post_public, settle, existing, emit,
}
use pr_reviewer.Jobs.Lifecycle.{reviewed_head_is_current}
use pr_reviewer.Notify.Dispatch.{is_restricted}

-- A comment that a public finding of the list is anchored to, on the new side of its patch.
pub record IsAnchored (t : Text) (render_hunks : FilePatch → String) (patches : List FilePatch)
    (findings : List RoutedFinding) (comment : ReviewComment) : Type 0 where
  pub finding : RoutedFinding
  pub given : Memᴰ finding findings
  pub stands : is_rejected finding.status ≡ false
  pub ordinary_content : is_restricted finding.decision.confidentiality ≡ false
  pub allowed : finding.decision.allow_public_post ≡ true
  pub title : comment.body ≡ finding.title
  pub path : comment.path ≡ finding.file_path
  pub numbered :
      (patch : FilePatch) × (find_where (λ p. str_eq p.path finding.file_path) patches ≡ some patch)
      × (is_number comment.line (new_side_numbers t (render_hunks patch)) ≡ true)

public_lem :
    (f : RoutedFinding)
    → is_public f ≡ true
    → (is_rejected f.status ≡ false)
      × (is_restricted f.decision.confidentiality ≡ false)
      × (f.decision.allow_public_post ≡ true)
public_lem f h = elim (Bool-cases (is_rejected f.status)) [
  | inl e ↦ absurd (let k = rw e at h in cc)
  | inr e ↦ elim (Bool-cases (is_restricted f.decision.confidentiality)) [
    | inl r ↦ absurd (let k = rw (e, r) at h in cc)
    | inr r ↦ (e, r, rw (e, r) at h)
  ]
]

module _ (t : Text) (render_hunks : FilePatch → String) (patches : List FilePatch) where
  anchored :
      (findings : List RoutedFinding) (f : RoutedFinding)
      → Memᴰ f findings
      → is_public f ≡ true
      → {comment : ReviewComment} → anchor t render_hunks patches f ≡ some comment
      → IsAnchored t render_hunks patches findings comment
  unfolding anchor
  anchored findings f m p h =
      elim (Option-cases (find_where (λ q. str_eq q.path f.file_path) patches)) [
        | inl e ↦ absurd (let k = rw e at h in cc)
        | inr (patch, e) ↦
            elim (Bool-cases (is_number f.line_start (new_side_numbers t (render_hunks patch)))) [
              | inr n ↦ absurd (let k = rw (e, n) at h in cc)
              | inl n ↦
                  let k = some_inj (rw (e, n) at h) in
                  subst (IsAnchored t render_hunks patches findings) k (record {
                    finding = f;
                    given = m;
                    stands = (public_lem f p).0;
                    ordinary_content = (public_lem f p).1;
                    allowed = (public_lem f p).2;
                    title = refl;
                    path =
                        (str_eq_iff patch.path f.file_path).0
                          (find_where_passes (λ q. str_eq q.path f.file_path) patches e);
                    numbered = (patch, e, n);
                  })
            ]
      ]

  All-IsAnchored :
      (all findings : List RoutedFinding)
      → ((f : RoutedFinding) → Memᴰ f findings → Memᴰ f all)
      → All
          (IsAnchored t render_hunks patches all)
          (inline_of t render_hunks patches (public_of findings))
  All-IsAnchored all [] sub = tt
  All-IsAnchored all (f ∷ fs) sub =
      let rest = All-IsAnchored all fs (λ g m. sub g (Memᴰ.tail m)) in
      elim (Bool-cases (is_public f)) [
        | inr e ↦ rw e rest
        | inl e ↦ elim (Option-cases (anchor t render_hunks patches f)) [
          | inl a ↦ rw (e, a) rest
          | inr (comment, a) ↦ rw (e, a) (anchored all f (sub f (Memᴰ.head refl)) e a, rest)
        ]
      ]

-- A submission of the reviewed head, whose comments are all anchored.
pub record IsFit (t : Text) (render_hunks : FilePatch → String) (patches : List FilePatch)
    (findings : List RoutedFinding) (head_sha : String) (s : ReviewSubmission) : Type 0 where
  pub commit : s.commit_id ≡ head_sha
  pub comments : All (IsAnchored t render_hunks patches findings) s.comments

-- What every call but submit keeps, and a submit of a fit submission right after the head was read
-- and is the one that was reviewed.
pub record IsKept {World : Type 0} (t : Text) (render_hunks : FilePatch → String)
    (patches : List FilePatch) (findings : List RoutedFinding) (head_sha : String)
    (c : Callers World) (P : World → Type 0) : Type 1 where
  pub head : (w : World) → P w → P (c.current_head_sha w).1
  pub recording : (r : PostedReview) (w : World) → P w → P (recorded c.record_post r w)
  pub emitting : (r : PostedReview) (w : World) → P w → P (emit c.record_event findings r w)
  pub submitting :
      (s : ReviewSubmission) (w : World)
      → (c.current_head_sha w).0 ≡ head_sha
      → IsFit t render_hunks patches findings head_sha s
      → P (c.current_head_sha w).1
      → P (c.submit s (c.current_head_sha w).1).1

module _ {World : Type 0} {t : Text} {render_hunks : FilePatch → String} {patches : List FilePatch}
    {findings : List RoutedFinding} {head_sha : String} {c : Callers World} {P : World → Type 0}
    (kept : IsKept t render_hunks patches findings head_sha c P) (key : String) where
  finish_keeps :
      (s : ReviewSubmission) (r : PostedReview) (w : World)
      → P w
      → P (finish c key findings s r w).1
  unfolding finish
  finish_keeps s r w h =
      let r' = filled key s r in
      kept.emitting r' (recorded c.record_post r' w) (kept.recording r' w h)

  settle_keeps :
      (s : ReviewSubmission) (o : Answer × World) → P o.1 → P (settle c key findings s o).1
  settle_keeps s (answered r, w) h = finish_keeps s r w h
  settle_keeps s (failed, w) h = h
  settle_keeps s (timed_out, w) h = elim (Option-cases (existing c key w)) [
    | inl e ↦ rw e h
    | inr (r, e) ↦ rw e (finish_keeps s r w h)
  ]

  submit_keeps :
      (s : ReviewSubmission) (w : World)
      → IsFit t render_hunks patches findings head_sha s
      → P w
      → P (submit_current c key head_sha findings s w).1
  unfolding submit_current reviewed_head_is_current
  submit_keeps s w fit h =
      let (live, w') = c.current_head_sha w in
      elim (Bool-cases (str_eq head_sha live)) [
        | inl e ↦ rw e (
            settle_keeps s (c.submit s w')
              (kept.submitting s w (sym ((str_eq_iff head_sha live).0 e)) fit (kept.head w h)))
        | inr e ↦ rw e (kept.head w h)
      ]

  public_keeps :
      (public : List RoutedFinding)
      → All (IsAnchored t render_hunks patches findings) (inline_of t render_hunks patches public)
      → (w : World) → P w
      → P (post_public t render_hunks c key head_sha findings public patches w).1
  unfolding submission_of
  public_keeps [] fit w h = h
  public_keeps (f ∷ fs) fit w h =
      submit_keeps (submission_of t render_hunks patches key head_sha (f ∷ fs)) w
        (record { commit = refl; comments = fit }) h

  -- A post calls submit only right after it has read that the reviewed head is still the head, for
  -- that head, and with comments that are each the title of a finding of the list that is not
  -- rejected, not restricted and allowed to be posted, at a line that the new side of the patch of
  -- its file has. So a property of the world that the other calls keep and that such a submission
  -- keeps is kept by a post.
  pub post_review_keeps :
      (w : World) → P w → P (post_review t render_hunks c head_sha findings key patches w).1
  unfolding post_review
  post_review_keeps w h = elim (Option-cases (existing c key w)) [
    | inl e ↦ rw e (
        public_keeps (public_of findings)
          (All-IsAnchored t render_hunks patches findings findings (λ f m. m)) w h)
    | inr (r, e) ↦ rw e h
  ]
