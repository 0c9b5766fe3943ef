-- ===== src/Base/Lists.antt =====
-- Lists measured by native numbers, and predicates on the elements of a list.
use Prim.Native.Nat.{ℕ, suc, ◌+◌, ◌≤◌}
use mathlib.Core.Path.{◌≡◌, refl, ap}
use mathlib.Core.Bool.{Bool, true, false, ◌||◌}
use mathlib.Core.List.{List, [], ◌∷◌, ◌++◌, map}
use mathlib.Core.Option.{Option, none, some}
use native.Mathlib.Omega.{arith}
use pr_reviewer.Base.Tests.{if◌then◌else◌, leb, ◌==◌}

module _ {ℓ} {A : Type ℓ} where
  abbrev pub length : List A → ℕ
  length [] = 0
  length (x ∷ xs) = suc (length xs)

  pub length-append : (xs ys : List A) → length (xs ++ ys) ≡ length xs + length ys
  length-append [] ys = omega arith
  length-append (x ∷ xs) ys = omega (arith, length-append xs ys)

  -- How many elements pass a test.
  abbrev pub count_where : (A → Bool) → List A → ℕ
  count_where p [] = 0
  count_where p (x ∷ xs) = (if p x then 1 else 0) + count_where p xs

  pub count_where-append :
      (p : A → Bool) (xs ys : List A)
      → count_where p (xs ++ ys) ≡ count_where p xs + count_where p ys
  count_where-append p [] ys = omega arith
  count_where-append p (x ∷ xs) ys = omega (arith, count_where-append p xs ys)

pub length-map {ℓ κ} :
    {A : Type ℓ} {B : Type κ} (f : A → B) (xs : List A) → length (map f xs) ≡ length xs
length-map f [] = refl
length-map f (x ∷ xs) = ap suc (length-map f xs)

module _ {ℓ κ} {A : Type ℓ} where
  abbrev pub All : (A → Type κ) → List A → Type κ
  All P [] = Unit
  All P (x ∷ xs) = P x × All P xs

  pub All-append : (P : A → Type κ) (xs ys : List A) → All P xs → All P ys → All P (xs ++ ys)
  All-append P [] ys hx hy = hy
  All-append P (x ∷ xs) ys hx hy = (hx.0, All-append P xs ys hx.1 hy)

module _ {ℓ} {A : Type ℓ} where
  -- update … set … where …
  abbrev pub map_where : (A → Bool) → (A → A) → List A → List A
  map_where p f [] = []
  map_where p f (x ∷ xs) = (if p x then f x else x) ∷ map_where p f xs

  -- The total of a column over the rows that pass a test.
  abbrev pub sum_where : (A → Bool) → (A → ℕ) → List A → ℕ
  sum_where p amount [] = 0
  sum_where p amount (x ∷ xs) = (if p x then amount x else 0) + sum_where p amount xs

  -- The first row that passes a test.
  abbrev pub find_where : (A → Bool) → List A → Option A
  find_where p [] = none
  find_where p (x ∷ xs) = let rest = find_where p xs in if p x then some x else rest

-- A property that the changed rows have holds of the updated table.
pub All-map_where {ℓ κ} :
    {A : Type ℓ} {P : A → Type κ} (p : A → Bool) (f : A → A) (xs : List A)
    → ((x : A) → p x ≡ true → P x → P (f x))
    → All P xs
    → All P (map_where p f xs)
All-map_where p f [] keep h = tt
All-map_where {P} p f (x ∷ xs) keep h = (first (p x) refl, All-map_where p f xs keep h.1)
  where
    first : (b : Bool) → p x ≡ b → P (if b then f x else x)
    first true e = keep x e h.0
    first false e = h.0

-- delete from … where …
module _ {ℓ} {A : Type ℓ} where
  abbrev pub delete_where : (A → Bool) → List A → List A
  delete_where p [] = []
  delete_where p (x ∷ xs) = let rest = delete_where p xs in if p x then rest else x ∷ rest

  pub count_where-delete_where :
      (q p : A → Bool) (xs : List A) → count_where q (delete_where p xs) ≤ count_where q xs
  count_where-delete_where q p [] = omega arith
  count_where-delete_where q p (x ∷ xs) = ground (arith, count_where-delete_where q p xs)

-- … order by …: of rows with one key, the earlier stays first
module _ {ℓ} {A : Type ℓ} where
  abbrev pub insert_by : (A → ℕ) → A → List A → List A
  insert_by key a [] = a ∷ []
  insert_by key a (b ∷ bs) =
      let rest = insert_by key a bs in if leb (key a) (key b) then a ∷ b ∷ bs else b ∷ rest

  abbrev pub sort_by : (A → ℕ) → List A → List A
  sort_by key [] = []
  sort_by key (a ∷ xs) = insert_by key a (sort_by key xs)

module _ {ℓ} {A : Type ℓ} where
  pub delete_where-delete_where :
      (p q : A → Bool) (xs : List A)
      → delete_where q (delete_where p xs) ≡ delete_where (λ x. p x || q x) xs
  delete_where-delete_where p q [] = refl
  delete_where-delete_where p q (x ∷ xs) = ground (arith, delete_where-delete_where p q xs)

  pub delete_where-same :
      (p q : A → Bool) (xs : List A) → ((x : A) → p x ≡ q x) → delete_where p xs ≡ delete_where q xs
  delete_where-same p q [] same = refl
  delete_where-same p q (x ∷ xs) same = ground (arith, same x, delete_where-same p q xs same)

-- i in (…)
abbrev pub is_one_of : ℕ → List ℕ → Bool
is_one_of i [] = false
is_one_of i (k ∷ ks) = (i == k) || is_one_of i ks
