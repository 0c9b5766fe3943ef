-- ===== src/Reviewer/Stripped.antt =====
-- The loop of _strip_markers ends, and a text that it returns holds no marker.
use pr_reviewer.Base.{
  refl, String, ◌+◌, ℕ, ◌<◌, arith, ◌≡◌, suc, false, Bool-cases, true, inr, inl, ◌≤◌, leb, zero,
}
use pr_reviewer.Reviewer.{Str}
use pr_reviewer.Reviewer.Prompt.{
  strip_rounds, strip_markers, Stripped, is_marked, stripped, unmarked, not_shrunk,
}

-- A stripped text holds no marker, and is the text itself when that holds none; the loop is left
-- by its exception only at a text that holds a marker and does not shrink.
pub data IsStripped (s : Str) (text : String) : Stripped → Type 0 where
  clean :
      (x : String)
      → is_marked s x ≡ false
      → (is_marked s text ≡ false → x ≡ text)
      → IsStripped s text (stripped x)
  stuck :
      (x : String)
      → is_marked s x ≡ true
      → s.len x ≤ s.len (unmarked s x)
      → IsStripped s text not_shrunk

module _ (s : Str) where
  from_next :
      (text next : String) {r : Stripped}
      → is_marked s text ≡ true
      → IsStripped s next r
      → IsStripped s text r
  from_next text next e (IsStripped.clean x f g) = IsStripped.clean x f (λ h. absurd cc)
  from_next text next e (IsStripped.stuck x f l) = IsStripped.stuck x f l

  strip_rounds-IsStripped :
      (fuel : ℕ) (text : String) → s.len text < fuel → IsStripped s text (strip_rounds s fuel text)
  unfolding strip_rounds
  strip_rounds-IsStripped zero text h = absurd (ground (arith, h))
  strip_rounds-IsStripped (suc n) text h = elim (Bool-cases (is_marked s text)) [
    | inr e ↦ rw e (IsStripped.clean text e (λ _. refl))
    | inl e ↦ elim (Bool-cases (leb (s.len text) (s.len (unmarked s text)))) [
      | inl l ↦ rw (e, l) (IsStripped.stuck text e (ground arith))
      | inr l ↦
          rw (e, l)
            (from_next text (unmarked s text) e
              (strip_rounds-IsStripped n (unmarked s text) (ground (arith, h))))
    ]
  ]

  -- _strip_markers ends for every text: with a text that holds no marker, which is the text itself
  -- when that holds none, or with its exception, at a text that holds a marker and does not shrink.
  pub strip_markers-IsStripped : (text : String) → IsStripped s text (strip_markers s text)
  unfolding strip_markers
  strip_markers-IsStripped text = strip_rounds-IsStripped (s.len text + 1) text (omega arith)
