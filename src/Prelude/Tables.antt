-- ===== src/Prelude/Tables.antt =====
-- SQL tables as lists of rows in the order of insertion: the rows that a WHERE clause selects.
use Prim.Native.Nat.{ℕ, suc, ◌+◌, ◌≤◌}
use mathlib.Core.Path.{◌≡◌, refl, ap}
use mathlib.Core.Logic.{inl, inr}
use mathlib.Core.Bool.{Bool, true, false}
use mathlib.Core.Option
use mathlib.Core.Option.{Option, none, some}
use mathlib.Core.List.{List, [], ◌∷◌, ◌++◌}
use native.Mathlib.Omega.{arith}
use ai_native_content_agency.Prelude.Tests.{if◌then◌else◌, Bool-cases}

module _ {ℓ} {A : Type ℓ} where
  abbrev pub length : List A → ℕ
  length [] = 0
  length (x ∷ xs) = suc (length xs)

  -- SELECT ... LIMIT 1
  unfoldable pub find_where : (A → Bool) → List A → Option A
  find_where p [] = none
  find_where p (x ∷ xs) = if p x then some x else find_where p xs

  -- The row count of a WHERE clause.
  unfoldable pub count_where : (A → Bool) → List A → ℕ
  count_where p [] = 0
  count_where p (x ∷ xs) = (if p x then 1 else 0) + count_where p xs

  -- UPDATE ... SET f WHERE p
  unfoldable pub update_where : (A → Bool) → (A → A) → List A → List A
  update_where p f [] = []
  update_where p f (x ∷ xs) = (if p x then f x else x) ∷ update_where p f xs

  -- SELECT ... WHERE p
  unfoldable pub select_where : (A → Bool) → List A → List A
  select_where p [] = []
  select_where p (x ∷ xs) = let rest = select_where p xs in if p x then x ∷ rest else rest

  pub count-append :
      (p : A → Bool) (xs ys : List A)
      → count_where p (xs ++ ys) ≡ count_where p xs + count_where p ys
  unfolding count_where
  count-append p [] ys = omega arith
  count-append p (x ∷ xs) ys = omega (arith, count-append p xs ys)

  pub count_one : (p : A → Bool) (x : A) → count_where p (x ∷ []) ≡ (if p x then 1 else 0)
  unfolding count_where
  count_one p x = omega arith

  -- An update that leaves a test as it was leaves its count.
  pub count-update :
      (q p : A → Bool) (f : A → A) (xs : List A)
      → ((x : A) → p x ≡ true → q (f x) ≡ q x)
      → count_where q (update_where p f xs) ≡ count_where q xs
  unfolding count_where update_where
  count-update q p f [] h = refl
  count-update q p f (x ∷ xs) h = ground (arith, h x, count-update q p f xs h)

  -- An update after which no selected row passes a test.
  pub count-update_none :
      (q p : A → Bool) (f : A → A) (xs : List A)
      → ((x : A) → p x ≡ true → q (f x) ≡ false)
      → ((x : A) → q x ≡ true → p x ≡ true)
      → count_where q (update_where p f xs) ≡ 0
  unfolding count_where update_where
  count-update_none q p f [] h k = refl
  count-update_none q p f (x ∷ xs) h k = ground (arith, h x, k x, count-update_none q p f xs h k)

  -- The first row that a test selects, after an update that the test does not see.
  pub find-update :
      (q p : A → Bool) (f : A → A) (xs : List A)
      → ((x : A) → p x ≡ true → q (f x) ≡ q x)
      → find_where q (update_where p f xs)
        ≡ Option.map (λ x. if p x then f x else x) (find_where q xs)
  unfolding find_where update_where
  find-update q p f [] h = refl
  find-update q p f (x ∷ xs) h = ground (arith, h x, find-update q p f xs h)

  pub find_none-count : (p : A → Bool) (xs : List A) → find_where p xs ≡ none → count_where p xs ≡ 0
  unfolding find_where count_where
  find_none-count p [] h = refl
  find_none-count p (x ∷ xs) h = ground (arith, find_none-count p xs)

  pub find_some-test : (p : A → Bool) (xs : List A) {x : A} → find_where p xs ≡ some x → p x ≡ true
  unfolding find_where
  find_some-test p [] h = ground arith
  find_some-test p (y ∷ xs) {x} h = ground (arith, find_some-test p xs {x = x})

  pub find_some-count :
      (p : A → Bool) (xs : List A) {x : A} → find_where p xs ≡ some x → 1 ≤ count_where p xs
  unfolding find_where count_where
  find_some-count p [] h = ground arith
  find_some-count p (y ∷ xs) {x} h = ground (arith, find_some-count p xs {x = x})

  pub find-append :
      (q : A → Bool) (xs ys : List A) {x : A}
      → find_where q xs ≡ some x
      → find_where q (xs ++ ys) ≡ some x
  unfolding find_where
  find-append q [] ys h = ground arith
  find-append q (z ∷ xs) ys {x} h = ground (arith, find-append q xs ys {x = x})

  -- Rows that a test does not select, before or after an update, are out of its selection.
  pub select-update :
      (q p : A → Bool) (f : A → A) (xs : List A)
      → ((x : A) → p x ≡ true → (q x ≡ false) × (q (f x) ≡ false))
      → select_where q (update_where p f xs) ≡ select_where q xs
  unfolding select_where update_where
  select-update q p f [] h = refl
  select-update q p f (x ∷ xs) h = ground (arith, h x, select-update q p f xs h)

  pub select-append :
      (q : A → Bool) (xs : List A) (x : A)
      → q x ≡ false
      → select_where q (xs ++ x ∷ []) ≡ select_where q xs
  unfolding select_where
  select-append q [] x h = ground arith
  select-append q (y ∷ xs) x h = ground (arith, select-append q xs x h)

  pub count_mono :
      (p q : A → Bool) (xs : List A)
      → ((x : A) → p x ≡ true → q x ≡ true)
      → count_where p xs ≤ count_where q xs
  unfolding count_where
  count_mono p q [] h = omega arith
  count_mono p q (x ∷ xs) h = ground (arith, h x, count_mono p q xs h)

  -- The one row of a selection, under a narrower test that it passes or fails.
  pub count_narrow :
      (p q : A → Bool) (xs : List A) {x : A}
      → ((y : A) → p y ≡ true → q y ≡ true)
      → count_where q xs ≤ 1
      → find_where q xs ≡ some x
      → count_where p xs ≡ (if p x then 1 else 0)
  unfolding count_where find_where
  count_narrow p q [] h one found = ground arith
  count_narrow p q (y ∷ xs) {x} h one found =
      ground (arith, h y, count_mono p q xs h, count_narrow p q xs {x = x} h)

  pub find-append_new :
      (q : A → Bool) (xs : List A) (x : A)
      → count_where q xs ≡ 0
      → q x ≡ true
      → find_where q (xs ++ x ∷ []) ≡ some x
  unfolding find_where count_where
  find-append_new q [] x h hit = ground arith
  find-append_new q (y ∷ xs) x h hit = ground (arith, find-append_new q xs x)

  pub select-append_hit :
      (q : A → Bool) (xs : List A) (x : A)
      → q x ≡ true
      → select_where q (xs ++ x ∷ []) ≡ select_where q xs ++ x ∷ []
  unfolding select_where
  select-append_hit q [] x h = ground arith
  select-append_hit q (y ∷ xs) x h = elim (Bool-cases (q y)) [
    | inl hit ↦ rw hit (ap (λ (zs : List A). y ∷ zs) (select-append_hit q xs x h))
    | inr miss ↦ rw miss (select-append_hit q xs x h)
  ]

  pub length-append_one : (xs : List A) (x : A) → length (xs ++ x ∷ []) ≡ length xs + 1
  length-append_one [] x = omega arith
  length-append_one (y ∷ xs) x = omega (arith, length-append_one xs x)
