-- ===== src/Prelude/Every.antt =====
-- `All` under the statements on rows.
use mathlib.Core.Path.{◌≡◌, refl, ap}
use mathlib.Core.Logic.{inl, inr}
use mathlib.Core.Bool.{Bool, true, false, ◌&&◌}
use mathlib.Core.Option.{none, some}
use mathlib.Core.List.{List, [], ◌∷◌, ◌++◌, Memᴰ}
use native.Mathlib.Omega.{arith}
use agentary.Prelude.Tests.{if◌then◌else◌, Bool-cases}
use agentary.Prelude.Rows.{
  All, update_rows, delete_rows, select, find_row, order_by, insert_row, any,
}

-- A property of both branches is one of the conditional.
pub either {ℓ κ} :
    {A : Type ℓ} (P : A → Type κ) (b : Bool) {x y : A} → P x → P y → P (if b then x else y)
either P true px py = px
either P false px py = py

module _ {ℓ κ} {A : Type ℓ} (P : A → Type κ) where
  pub All-update_rows :
      (p : A → Bool) (f : A → A) (xs : List A)
      → ((x : A) → P x → P (f x))
      → All P xs
      → All P (update_rows p f xs)
  All-update_rows p f [] k h = tt
  All-update_rows p f (x ∷ xs) k h = (either P (p x) (k x h.0) h.0, All-update_rows p f xs k h.1)

  pub All-delete_rows : (p : A → Bool) (xs : List A) → All P xs → All P (delete_rows p xs)
  All-delete_rows p [] h = tt
  All-delete_rows p (x ∷ xs) h =
      either (All P) (p x) (All-delete_rows p xs h.1) (h.0, All-delete_rows p xs h.1)

  pub All-select : (p : A → Bool) (xs : List A) → All P xs → All P (select p xs)
  All-select p [] h = tt
  All-select p (x ∷ xs) h = either (All P) (p x) (h.0, All-select p xs h.1) (All-select p xs h.1)

  pub All-snoc : (xs : List A) (x : A) → All P xs → P x → All P (xs ++ x ∷ [])
  All-snoc [] x h px = (px, tt)
  All-snoc (y ∷ ys) x h px = (h.0, All-snoc ys x h.1 px)

  pub All-insert_row :
      (le : A → A → Bool) (x : A) (xs : List A) → P x → All P xs → All P (insert_row le x xs)
  All-insert_row le x [] px h = (px, tt)
  All-insert_row le x (y ∷ ys) px h =
      either (All P) (le x y) (px, h) (h.0, All-insert_row le x ys px h.1)

  pub All-order_by : (le : A → A → Bool) (xs : List A) → All P xs → All P (order_by le xs)
  All-order_by le [] h = tt
  All-order_by le (x ∷ xs) h = All-insert_row le x (order_by le xs) h.0 (All-order_by le xs h.1)

module _ {ℓ κ} {A : Type ℓ} where
  pub All-mem : (P : A → Type κ) (xs : List A) (x : A) → All P xs → Memᴰ x xs → P x
  All-mem P [] x h m = elim m [ ]
  All-mem P (y ∷ ys) x h (Memᴰ.head e) = rw e h.0
  All-mem P (y ∷ ys) x h (Memᴰ.tail m) = All-mem P ys x h.1 m

module _ {ℓ} {A : Type ℓ} where
  -- What a SELECT returns passes its WHERE.
  pub select-passes : (p : A → Bool) (xs : List A) → All (λ x. p x ≡ true) (select p xs)
  select-passes p [] = tt
  select-passes p (x ∷ xs) = elim (Bool-cases (p x)) [
    | inl e ↦ rw e (e, select-passes p xs)
    | inr e ↦ rw e (select-passes p xs)
  ]

  -- The row that a search returns passes.
  pub find_row-passes : (p : A → Bool) (xs : List A) (x : A) → find_row p xs ≡ some x → p x ≡ true
  find_row-passes p [] x h = cc
  find_row-passes p (y ∷ ys) x h = ground (arith, find_row-passes p ys x)

module _ {ℓ} {A : Type ℓ} where
  -- INSERT OR IGNORE under a UNIQUE constraint: `same` says when two rows collide.
  abbrev pub put : (A → A → Bool) → A → List A → List A
  put same x xs = if any (λ y. same y x) xs then xs else xs ++ x ∷ []

  -- The same, for one row after another.
  abbrev pub put_all : (A → A → Bool) → List A → List A → List A
  put_all same [] xs = xs
  put_all same (x ∷ rest) xs = put_all same rest (put same x xs)

  pub any-select : (p q : A → Bool) (xs : List A) → any (λ x. p x && q x) xs ≡ any q (select p xs)
  any-select p q [] = refl
  any-select p q (x ∷ xs) = ground (arith, any-select p q xs)

  pub select-snoc :
      (p : A → Bool) (xs : List A) (x : A)
      → p x ≡ true
      → select p (xs ++ x ∷ []) ≡ select p xs ++ x ∷ []
  select-snoc p [] x h = rw h
  select-snoc p (y ∷ ys) x h = ground (arith, select-snoc p ys x h)

  -- Where rows collide only within one group, the rows of the group are put as if they were alone.
  pub select-put :
      (p : A → Bool) (same : A → A → Bool) (x : A) (xs : List A)
      → p x ≡ true
      → select p (put (λ y z. p y && same y z) x xs) ≡ put same x (select p xs)
  select-put p same x xs h = ground (arith, any-select p (λ y. same y x) xs, select-snoc p xs x h)

  -- A search fails exactly where no row passes.
  pub find_row-none :
      (p : A → Bool) (xs : List A) → find_row p xs ≡ none → All (λ x. p x ≡ false) xs
  find_row-none p [] h = tt
  find_row-none p (x ∷ xs) h = elim (Bool-cases (p x)) [
    | inl e ↦ cc
    | inr e ↦ (e, find_row-none p xs (rw e at h))
  ]

  pub find_row-mem : (p : A → Bool) (xs : List A) (x : A) → find_row p xs ≡ some x → Memᴰ x xs
  find_row-mem p [] x h = cc
  find_row-mem p (y ∷ ys) x h = elim (Bool-cases (p y)) [
    | inl e ↦ Memᴰ.head (cc)
    | inr e ↦ Memᴰ.tail (find_row-mem p ys x (rw e at h))
  ]

  -- An update that keeps what a search looks at.
  pub find_row-update_rows :
      (p : A → Bool) (f : A → A) (xs : List A) (x : A)
      → ((x : A) → p (f x) ≡ p x)
      → find_row p xs ≡ some x
      → find_row p (update_rows p f xs) ≡ some (f x)
  find_row-update_rows p f [] x k h = cc
  find_row-update_rows p f (y ∷ ys) x k h = elim (Bool-cases (p y)) [
    | inl e ↦ rw (e, k y, e) (ap some (ap f (same (rw e at h))))
    | inr e ↦ rw (e, e) (find_row-update_rows p f ys x k (rw e at h))
  ]
    where
      same : some y ≡ some x → y ≡ x
      same h = cc
