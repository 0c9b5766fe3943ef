-- ===== src/Jobs/Lifecycle.antt =====
-- github/lifecycle.py: what a pull request's delivery asks of the queue.
use pr_reviewer.Base.{
  [], ◌∷◌, if◌then◌else◌, List, String, Bool, not, false, str_eq, ◌||◌, ◌&&◌, ◌≡◌, true, ◌↔◌, sym,
  Bool-cases, inl, arith, str_eq_iff, subst, inr, refl,
}
use pr_reviewer.Jobs.Cancel.{GitHubDelivery}

pub data LifecycleKind : Type 0 where
  to_enqueue to_ignore to_cancel : LifecycleKind

abbrev pub in_names : String → List String → Bool
in_names name [] = false
in_names name (x ∷ xs) = str_eq name x || in_names name xs

abbrev pub enqueue_actions : List String
enqueue_actions = "opened" ∷ "reopened" ∷ "ready_for_review" ∷ "synchronize" ∷ []

abbrev pub cancel_actions : List String
cancel_actions = "closed" ∷ "converted_to_draft" ∷ []

unfoldable pub handle_pull_request_event : GitHubDelivery → LifecycleKind
handle_pull_request_event delivery =
    if not (str_eq delivery.event "pull_request")
    then to_ignore
    else if in_names delivery.action cancel_actions
    then to_cancel
    else if not (in_names delivery.action enqueue_actions)
    then to_ignore
    else if str_eq delivery.action "opened" && delivery.draft
    then to_ignore
    else to_enqueue

unfoldable pub reviewed_head_is_current : (reviewed_head_sha live_head_sha : String) → Bool
reviewed_head_is_current reviewed_head_sha live_head_sha = str_eq reviewed_head_sha live_head_sha

named :
    (a b : String)
    → str_eq a b ≡ true
    → in_names b cancel_actions ≡ false
    → in_names a cancel_actions ≡ false
named a b h f =
    let q : b ≡ a = sym ((str_eq_iff a b).0 h) in subst (λ x. in_names x cancel_actions ≡ false) q f

-- No action asks for both.
apart : (a : String) → in_names a enqueue_actions ≡ true → in_names a cancel_actions ≡ false
apart a h = elim (Bool-cases (str_eq a "opened")) [
  | inl e ↦ named a "opened" e refl
  | inr e ↦ elim (Bool-cases (str_eq a "reopened")) [
    | inl f ↦ named a "reopened" f refl
    | inr f ↦ elim (Bool-cases (str_eq a "ready_for_review")) [
      | inl g ↦ named a "ready_for_review" g refl
      | inr g ↦ named a "synchronize" (ground arith) refl
    ]
  ]
]

-- A delivery asks for a review exactly when it is of a pull request that was opened and is no
-- draft, or was reopened, made ready for review or pushed to; and for an end of the active reviews
-- exactly when the pull request was closed or made a draft.
handle_pull_request_event_lem :
    (d : GitHubDelivery)
    → let is_pull_request = (str_eq d.event "pull_request" ≡ true) in
      ((handle_pull_request_event d ≡ to_enqueue) ↔ (
        is_pull_request
        × (in_names d.action enqueue_actions ≡ true)
        × ((str_eq d.action "opened" && d.draft) ≡ false)))
      × ((handle_pull_request_event d ≡ to_cancel)
          ↔ (is_pull_request × (in_names d.action cancel_actions ≡ true)))
unfolding handle_pull_request_event
handle_pull_request_event_lem d = (
  (λ h. ground arith, λ h. ground (arith, apart d.action)),
  (λ h. ground arith, λ h. ground arith),
)
