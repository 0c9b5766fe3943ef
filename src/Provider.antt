-- ===== src/Provider.antt =====
-- Calls of a model provider: src/pr_reviewer/models/provider_errors.py (what a failure is) and
-- src/pr_reviewer/models/retry.py (when a call is made again). Times are microseconds. A status
-- code, a header's presence and the lower-cased error text are what classification reads.
pub mod Retry
pub mod Bounds
use pr_reviewer.Base.{
  refl, String, Bool, Option, ℕ, true, List, ◌≡◌, if◌then◌else◌, false, ◌==◌, ◌∷◌, arith, ◌||◌, [],
  str_eq, ◌&&◌, Bool-cases, ◌↔◌, ◌⊎◌, inr, inl, sym, str_eq_iff, subst,
}

pub data ProviderErrorKind : Type 0 where
  retryable_rate_limit out_of_tokens bad_key provider_overloaded bad_request unknown :
      ProviderErrorKind

pub record ProviderFailure : Type 0 where
  pub kind : ProviderErrorKind
  pub reason : String
  pub retry_after_seconds : Option ℕ

-- Only an explicit rate limit may enter the retry loop.
unfoldable pub is_retryable : ProviderErrorKind → Bool
is_retryable retryable_rate_limit = true
is_retryable _ = false

-- `any(marker in message for marker in (…))`
abbrev pub any_in : (String → String → Bool) → String → List String → Bool
any_in has message [] = false
any_in has message (marker ∷ markers) = has message marker || any_in has message markers

abbrev pub quota_markers : List String
quota_markers = "credit balance" ∷ "spend limit" ∷ "usage limit" ∷ "quota" ∷ []

-- `has message marker` is Python's `marker in message`; `has_retry_after` is the search of the
-- headers for the key retry-after; `message` is _error_message of the body.
unfoldable pub classify_provider_failure :
    (has : String → String → Bool) (provider : String) (status_code : ℕ) (has_retry_after : Bool)
    (message : String)
    → ProviderErrorKind
classify_provider_failure has provider status_code has_retry_after message =
    if status_code == 401
    then bad_key
    else if status_code == 400
    then bad_request
    else if status_code == 503 || status_code == 529
    then provider_overloaded
    else if str_eq provider "anthropic" && status_code == 402
    then out_of_tokens
    else if str_eq provider "anthropic" && status_code == 429
    then (if has_retry_after then retryable_rate_limit else out_of_tokens)
    else if str_eq provider "openai" && status_code == 429
    then (if any_in has message quota_markers
        then out_of_tokens
        else if has message "rate limit"
        then retryable_rate_limit
        else unknown)
    else unknown

one_provider : (p : String) → str_eq p "anthropic" ≡ true → str_eq p "openai" ≡ false
one_provider p h = elim (Bool-cases (str_eq p "openai")) [
  | inr e ↦ e
  | inl e ↦
      let q : "anthropic" ≡ p = sym ((str_eq_iff p "anthropic").0 h) in
      let c : str_eq "anthropic" "openai" ≡ true =
        subst (λ x. str_eq x "openai" ≡ true) (sym q) e in
      cc
]

-- A failure is retried exactly when its status is 429 and it is one of Anthropic with a retry-after
-- header, or one of OpenAI whose message has the words "rate limit" and none of the markers of an
-- exhausted quota.
classify-is_retryable :
    (has : String → String → Bool) (p : String) (s : ℕ) (r : Bool) (m : String)
    → (is_retryable (classify_provider_failure has p s r m) ≡ true) ↔ (
        (s ≡ 429)
        × (((str_eq p "anthropic" ≡ true) × (r ≡ true))
            ⊎ ((str_eq p "openai" ≡ true)
                × (any_in has m quota_markers ≡ false)
                × (has m "rate limit" ≡ true))))
unfolding classify_provider_failure is_retryable
classify-is_retryable has p s r m = (λ h. ground arith, λ h. ground (arith, one_provider p))
