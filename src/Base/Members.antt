-- ===== src/Base/Members.antt =====
-- The elements of a list: of one that is appended to, filtered or ordered, and all of them.
use Prim.Native.Nat.{ℕ}
use mathlib.Core.Path.{◌≡◌, refl, subst, sym}
use mathlib.Core.Bool.{Bool, false}
use mathlib.Core.List.{List, [], ◌∷◌, ◌++◌, Memᴰ}
use mathlib.Core.Logic.{◌⊎◌, inl, inr}
use pr_reviewer.Base.Tests.{leb, Bool-cases}
use pr_reviewer.Base.Lists.{All, insert_by, sort_by, delete_where}

module _ {ℓ} {A : Type ℓ} where
  -- An element is the first or a later one.
  pub first_or_rest {κ} :
      (P : A → Type κ) (a : A) (xs : List A)
      → P a
      → ((x : A) → Memᴰ x xs → P x)
      → (x : A) → Memᴰ x (a ∷ xs)
      → P x
  first_or_rest P a xs h g x (Memᴰ.head e) = subst P (sym e) h
  first_or_rest P a xs h g x (Memᴰ.tail i) = g x i

  pub mem-cons :
      {a x : A} (xs ys : List A) → (Memᴰ x xs → Memᴰ x ys) → Memᴰ x (a ∷ xs) → Memᴰ x (a ∷ ys)
  mem-cons xs ys go (Memᴰ.head e) = Memᴰ.head e
  mem-cons xs ys go (Memᴰ.tail i) = Memᴰ.tail (go i)

  pub mem-under : {a b x : A} (xs : List A) → Memᴰ x (a ∷ xs) → Memᴰ x (a ∷ b ∷ xs)
  mem-under {b = b} xs = mem-cons xs (b ∷ xs) (λ i. Memᴰ.tail i)

  pub mem-append_left : (xs ys : List A) {x : A} → Memᴰ x xs → Memᴰ x (xs ++ ys)
  mem-append_left [] ys i = elim i [ ]
  mem-append_left (y ∷ xs) ys (Memᴰ.head e) = Memᴰ.head e
  mem-append_left (y ∷ xs) ys (Memᴰ.tail i) = Memᴰ.tail (mem-append_left xs ys i)

  pub mem-append_last : (xs : List A) (x : A) → Memᴰ x (xs ++ x ∷ [])
  mem-append_last [] x = Memᴰ.head refl
  mem-append_last (y ∷ xs) x = Memᴰ.tail (mem-append_last xs x)

  pub mem-append_cases : (xs : List A) (y : A) {x : A} → Memᴰ x (xs ++ y ∷ []) → Memᴰ x xs ⊎ (x ≡ y)
  mem-append_cases [] y (Memᴰ.head e) = inr e
  mem-append_cases [] y (Memᴰ.tail i) = elim i [ ]
  mem-append_cases (z ∷ xs) y (Memᴰ.head e) = inl (Memᴰ.head e)
  mem-append_cases (z ∷ xs) y (Memᴰ.tail i) = elim (mem-append_cases xs y i) [
    | inl j ↦ inl (Memᴰ.tail j)
    | inr e ↦ inr e
  ]

  pub All-each {κ} : {P : A → Type κ} (xs : List A) → ((x : A) → Memᴰ x xs → P x) → All P xs
  All-each [] h = tt
  All-each (a ∷ xs) h = (h a (Memᴰ.head refl), All-each xs (λ x i. h x (Memᴰ.tail i)))

  pub All-mem {κ} : (P : A → Type κ) (xs : List A) {x : A} → All P xs → Memᴰ x xs → P x
  All-mem P [] h i = elim i [ ]
  All-mem P (a ∷ xs) h (Memᴰ.head e) = subst P (sym e) h.0
  All-mem P (a ∷ xs) h (Memᴰ.tail i) = All-mem P xs h.1 i

  pub All-weaken {κ} :
      {P Q : A → Type κ} (xs : List A) → ((x : A) → P x → Q x) → All P xs → All Q xs
  All-weaken [] f h = tt
  All-weaken (a ∷ xs) f h = (f a h.0, All-weaken xs f h.1)

module _ {ℓ} {A : Type ℓ} (f : A → Bool) where
  -- An element that is not deleted stays.
  pub mem-delete_where :
      (xs : List A) {x : A} → Memᴰ x xs → f x ≡ false → Memᴰ x (delete_where f xs)
  mem-delete_where [] i h = elim i [ ]
  mem-delete_where (a ∷ xs) (Memᴰ.head e) h = let q = rw e at h in rw q (Memᴰ.head e)
  mem-delete_where (a ∷ xs) (Memᴰ.tail i) h = elim (Bool-cases (f a)) [
    | inl e ↦ rw e (mem-delete_where xs i h)
    | inr e ↦ rw e (Memᴰ.tail (mem-delete_where xs i h))
  ]

  -- What is left was there before, and was not to be deleted.
  pub delete_where-mem :
      (xs : List A) {x : A} → Memᴰ x (delete_where f xs) → Memᴰ x xs × (f x ≡ false)
  delete_where-mem [] i = elim i [ ]
  delete_where-mem (a ∷ xs) {x} i = elim (Bool-cases (f a)) [
    | inl e ↦ let (n, h) = delete_where-mem xs (rw e at i) in (Memᴰ.tail n, h)
    | inr e ↦ kept (rw e at i) e (λ j. delete_where-mem xs j)
  ]
    where
      kept :
          {x : A}
          → Memᴰ x (a ∷ delete_where f xs)
          → f a ≡ false
          → (Memᴰ x (delete_where f xs) → Memᴰ x xs × (f x ≡ false))
          → Memᴰ x (a ∷ xs) × (f x ≡ false)
      kept (Memᴰ.head e) h go = (Memᴰ.head e, rw e h)
      kept (Memᴰ.tail i) h go = let (n, q) = go i in (Memᴰ.tail n, q)

module _ {ℓ} {A : Type ℓ} (key : A → ℕ) where
  mem-insert_by : (a : A) (xs : List A) {x : A} → Memᴰ x (insert_by key a xs) → Memᴰ x (a ∷ xs)
  mem-insert_by a [] i = i
  mem-insert_by a (b ∷ bs) i = elim (Bool-cases (leb (key a) (key b))) [
    | inl e ↦ rw e at i
    | inr e ↦ past (rw e at i) (λ m. mem-insert_by a bs m)
  ]
    where
      past :
          {x : A}
          → Memᴰ x (b ∷ insert_by key a bs)
          → (Memᴰ x (insert_by key a bs) → Memᴰ x (a ∷ bs))
          → Memᴰ x (a ∷ b ∷ bs)
      past (Memᴰ.head e) go = Memᴰ.tail (Memᴰ.head e)
      past (Memᴰ.tail m) go = mem-under bs (go m)

  -- An ordered list has no new rows.
  pub mem-sort_by : (xs : List A) {x : A} → Memᴰ x (sort_by key xs) → Memᴰ x xs
  mem-sort_by [] i = i
  mem-sort_by (a ∷ xs) i =
      mem-cons (sort_by key xs) xs (mem-sort_by xs) (mem-insert_by a (sort_by key xs) i)

  inserted_by-mem : (a : A) (xs : List A) {x : A} → Memᴰ x (a ∷ xs) → Memᴰ x (insert_by key a xs)
  inserted_by-mem a [] i = i
  inserted_by-mem a (b ∷ bs) i = elim (Bool-cases (leb (key a) (key b))) [
    | inl e ↦ rw e i
    | inr e ↦ rw e (past i (λ m. inserted_by-mem a bs m))
  ]
    where
      past :
          {x : A}
          → Memᴰ x (a ∷ b ∷ bs)
          → (Memᴰ x (a ∷ bs) → Memᴰ x (insert_by key a bs))
          → Memᴰ x (b ∷ insert_by key a bs)
      past (Memᴰ.head e) go = Memᴰ.tail (go (Memᴰ.head e))
      past (Memᴰ.tail (Memᴰ.head e)) go = Memᴰ.head e
      past (Memᴰ.tail (Memᴰ.tail m)) go = Memᴰ.tail (go (Memᴰ.tail m))

  -- An ordered list has every row.
  pub sort_by-mem : (xs : List A) {x : A} → Memᴰ x xs → Memᴰ x (sort_by key xs)
  sort_by-mem [] i = i
  sort_by-mem (a ∷ xs) (Memᴰ.head e) = inserted_by-mem a (sort_by key xs) (Memᴰ.head e)
  sort_by-mem (a ∷ xs) (Memᴰ.tail i) =
      inserted_by-mem a (sort_by key xs) (Memᴰ.tail (sort_by-mem xs i))
