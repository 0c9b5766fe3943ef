-- ===== src/Base/Sums.antt =====
-- Counts and totals over a table before and after an update.
use pr_reviewer.Base.Tests.{Bool-cases, if◌then◌else◌}
use pr_reviewer.Base.Lists.{map_where, count_where, find_where, sum_where}
use mathlib.Core.Bool.{Bool, false, true}
use mathlib.Core.List.{◌∷◌, ◌++◌, List, []}
use Prim.Native.Nat.{ℕ, ◌-◌, ◌+◌, ◌≤◌}
use mathlib.Core.Path.{◌≡◌, refl}
use mathlib.Core.Option.{none, some}
use native.Mathlib.Omega.{arith}
use mathlib.Core.Logic.{inl, inr}

module _ {ℓ} {A : Type ℓ} where
  pub count_where-le_mono :
      (p q : A → Bool) (xs : List A)
      → ((x : A) → p x ≡ true → q x ≡ true)
      → count_where p xs ≤ count_where q xs
  count_where-le_mono p q [] imp = omega arith
  count_where-le_mono p q (x ∷ xs) imp = ground (arith, imp x, count_where-le_mono p q xs imp)

  pub count_where-map_where :
      (q p : A → Bool) (f : A → A) (xs : List A)
      → ((x : A) → q (f x) ≡ q x)
      → count_where q (map_where p f xs) ≡ count_where q xs
  count_where-map_where q p f [] same = refl
  count_where-map_where q p f (x ∷ xs) same =
      ground (arith, same x, count_where-map_where q p f xs same)

  pub map_where-eq_of_zero :
      (p : A → Bool) (f : A → A) (xs : List A) → count_where p xs ≡ 0 → map_where p f xs ≡ xs
  map_where-eq_of_zero p f [] h = refl
  map_where-eq_of_zero p f (x ∷ xs) h = ground (arith, map_where-eq_of_zero p f xs)

  -- No row passes, and no total.
  pub sum_where-eq_zero :
      (q : A → Bool) (amount : A → ℕ) (xs : List A)
      → count_where q xs ≡ 0
      → sum_where q amount xs ≡ 0
  sum_where-eq_zero q amount [] h = refl
  sum_where-eq_zero q amount (x ∷ xs) h = ground (arith, sum_where-eq_zero q amount xs)

  -- An update of other rows leaves a total.
  pub sum_where-apart :
      (q p : A → Bool) (f : A → A) (amount : A → ℕ) (xs : List A)
      → ((x : A) → q (f x) ≡ q x)
      → ((x : A) → p x ≡ true → q x ≡ false)
      → sum_where q amount (map_where p f xs) ≡ sum_where q amount xs
  sum_where-apart q p f amount [] same apart = refl
  sum_where-apart q p f amount (x ∷ xs) same apart =
      ground (arith, same x, apart x, sum_where-apart q p f amount xs same apart)

  -- An update that keeps the column keeps the total.
  pub sum_where-same :
      (q p : A → Bool) (f : A → A) (amount : A → ℕ) (xs : List A)
      → ((x : A) → q (f x) ≡ q x)
      → ((x : A) → amount (f x) ≡ amount x)
      → sum_where q amount (map_where p f xs) ≡ sum_where q amount xs
  sum_where-same q p f amount [] same eq = refl
  sum_where-same q p f amount (x ∷ xs) same eq =
      ground (arith, same x, eq x, sum_where-same q p f amount xs same eq)

  -- The one row that a key has is one of those that the update adds `n` to.
  pub sum_where-add :
      (q p : A → Bool) (f : A → A) (amount : A → ℕ) (n : ℕ) (xs : List A)
      → ((x : A) → q (f x) ≡ q x)
      → ((x : A) → amount (f x) ≡ amount x + n)
      → ((x : A) → p x ≡ true → q x ≡ true)
      → count_where q xs ≤ 1
      → 1 ≤ count_where p xs
      → sum_where q amount (map_where p f xs) ≡ sum_where q amount xs + n
  sum_where-add q p f amount n [] same plus imp u h = absurd (omega arith)
  sum_where-add q p f amount n (x ∷ xs) same plus imp u h = elim (Bool-cases (p x)) [
    | inl e ↦
        ground (
          arith,
          same x,
          plus x,
          imp x,
          count_where-le_mono p q xs imp,
          map_where-eq_of_zero p f xs,
        )
    | inr e ↦
        ground
          (arith, count_where-le_mono p q xs imp, sum_where-add q p f amount n xs same plus imp)
  ]

  -- An update takes `n` off the one row that a key has, stopping at 0.
  pub sum_where-sub :
      (q : A → Bool) (f : A → A) (amount : A → ℕ) (n : ℕ) (xs : List A)
      → ((x : A) → q (f x) ≡ q x)
      → ((x : A) → amount (f x) ≡ amount x - n)
      → count_where q xs ≤ 1
      → sum_where q amount (map_where q f xs) ≡ sum_where q amount xs - n
  sum_where-sub q f amount n [] same less u = omega arith
  sum_where-sub q f amount n (x ∷ xs) same less u = elim (Bool-cases (q x)) [
    | inl e ↦
        ground (arith, same x, less x, sum_where-eq_zero q amount xs, map_where-eq_of_zero q f xs)
    | inr e ↦ ground (arith, sum_where-sub q f amount n xs same less)
  ]

  -- The update takes the one row that passes `p` out of the total.
  pub sum_where-drop :
      (q p : A → Bool) (f : A → A) (amount : A → ℕ) (xs : List A)
      → ((x : A) → q (f x) ≡ false)
      → {v : A} → find_where p xs ≡ some v
      → count_where p xs ≤ 1
      → sum_where q amount xs
        ≡ (if q v then amount v else 0) + sum_where q amount (map_where p f xs)
  sum_where-drop q p f amount [] gone h u = cc
  sum_where-drop q p f amount (x ∷ xs) gone {v} h u = elim (Bool-cases (p x)) [
    | inl e ↦ let here : x ≡ v = ground arith in ground (arith, gone x, map_where-eq_of_zero p f xs)
    | inr e ↦ ground (arith, sum_where-drop q p f amount xs gone {v = v})
  ]

  pub find_where-none : (p : A → Bool) (xs : List A) → find_where p xs ≡ none → count_where p xs ≡ 0
  find_where-none p [] h = refl
  find_where-none p (x ∷ xs) h = ground (arith, find_where-none p xs)

  pub count_where-map_where_zero :
      (q p : A → Bool) (f : A → A) (xs : List A)
      → ((x : A) → p x ≡ true → q (f x) ≡ false)
      → ((x : A) → p x ≡ false → q x ≡ false)
      → count_where q (map_where p f xs) ≡ 0
  count_where-map_where_zero q p f [] hit miss = refl
  count_where-map_where_zero q p f (x ∷ xs) hit miss =
      ground (arith, hit x, miss x, count_where-map_where_zero q p f xs hit miss)

  pub count_where-find_where :
      (p : A → Bool) (xs : List A) {v : A} → find_where p xs ≡ some v → 1 ≤ count_where p xs
  count_where-find_where p [] h = cc
  count_where-find_where p (x ∷ xs) {v} h = ground (arith, count_where-find_where p xs {v = v})

  pub find_where_passes :
      (p : A → Bool) (xs : List A) {v : A} → find_where p xs ≡ some v → p v ≡ true
  find_where_passes p [] h = cc
  find_where_passes p (x ∷ xs) {v} h = elim (Bool-cases (p x)) [
    | inl e ↦ ground arith
    | inr e ↦ find_where_passes p xs (ground arith)
  ]

  -- No row passes a test that the first row of another test then does not pass.
  pub found_other :
      (p q : A → Bool) (xs : List A) {v : A}
      → find_where p xs ≡ some v
      → count_where q xs ≡ 0
      → q v ≡ false
  found_other p q [] e z = cc
  found_other p q (x ∷ xs) {v} e z = elim (Bool-cases (p x)) [
    | inl f ↦ ground arith
    | inr f ↦ found_other p q xs (ground arith) (ground arith)
  ]

  pub find_where-of_zero :
      (p : A → Bool) (xs : List A) → count_where p xs ≡ 0 → find_where p xs ≡ none
  find_where-of_zero p [] h = refl
  find_where-of_zero p (x ∷ xs) h = ground (arith, find_where-of_zero p xs)

  pub find_where-append_new :
      (p : A → Bool) (xs : List A) (x : A)
      → count_where p xs ≡ 0
      → p x ≡ true
      → find_where p (xs ++ x ∷ []) ≡ some x
  find_where-append_new p [] x z h = rw h refl
  find_where-append_new p (y ∷ xs) x z h = ground (arith, find_where-append_new p xs x)

  pub find_where-map_where :
      (p q : A → Bool) (f : A → A) (xs : List A) {v : A}
      → ((x : A) → p (f x) ≡ p x)
      → find_where p xs ≡ some v
      → find_where p (map_where q f xs) ≡ some (if q v then f v else v)
  find_where-map_where p q f [] same h = cc
  find_where-map_where p q f (x ∷ xs) {v} same h = elim (Bool-cases (p x)) [
    | inl e ↦ ground (arith, same x)
    | inr e ↦ ground (arith, same x, find_where-map_where p q f xs {v = v} same)
  ]
