-- ===== src/Posting/Search.antt =====
-- Python's `in` on two texts: github/post_review.py looks for a marker in the text of a review.
use Prim.Native.String.{◌++◌, [], ◌∷◌}
use text.Mathlib.Text.{starts_with}
use text.Mathlib.TextPositions.{starts_with-append}
use pr_reviewer.Base.{refl, String, Bool, true, ◌||◌, ◌≡◌}

unfoldable pub is_part : (needle text : String) → Bool
is_part needle [] = starts_with "" needle
is_part needle (c ∷ s) = starts_with (c ∷ s) needle || is_part needle s

is_part-starts_with :
    (needle text : String) → starts_with text needle ≡ true → is_part needle text ≡ true
unfolding is_part
is_part-starts_with needle [] h = h
is_part-starts_with needle (c ∷ s) h = rw h refl

-- A text is found at the start of another.
pub is_part-append : (needle rest : String) → is_part needle (needle ++ rest) ≡ true
is_part-append needle rest =
    is_part-starts_with needle (needle ++ rest) (starts_with-append needle rest)
