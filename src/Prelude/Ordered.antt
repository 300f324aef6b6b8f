-- ===== src/Prelude/Ordered.antt =====
-- What ORDER BY puts first, and what an UPDATE does that finds no row.
use Prim.Native.Nat.{ℕ, ◌≤◌}
use mathlib.Core.Path.{◌≡◌, refl}
use mathlib.Core.Logic.{inl, inr}
use mathlib.Core.Bool.{Bool, true, false}
use mathlib.Core.Option.{Option, none, some}
use mathlib.Core.List.{List, [], ◌∷◌, Memᴰ}
use native.Mathlib.Omega.{arith}
use agentary.Prelude.Tests.{if◌then◌else◌, leb, leb→le, leb_false→le, Bool-cases}
use agentary.Prelude.Rows.{All, update_rows, count_rows, order_by, insert_row, head?}

-- The first of the row and of the best of the others.
abbrev pub sooner {ℓ} : {A : Type ℓ} → (A → A → Bool) → A → Option A → A
sooner le x none = x
sooner le x (some y) = if le x y then x else y

module _ {ℓ} {A : Type ℓ} where
  head-insert_row :
      (le : A → A → Bool) (x : A) (ys : List A)
      → head? (insert_row le x ys) ≡ some (sooner le x (head? ys))
  head-insert_row le x [] = refl
  head-insert_row le x (y ∷ ys) = elim (Bool-cases (le x y)) [
    | inl e ↦ rw e refl
    | inr e ↦ rw e refl
  ]

  -- One of the rows, with the least number; `none` if there are no rows.
  abbrev pub Least : (A → ℕ) → List A → Option A → Type ℓ
  Least key xs none = xs ≡ []
  Least key xs (some x) = Memᴰ x xs × All (λ y. key x ≤ key y) xs

  least_weaken :
      (key : A → ℕ) (n m : ℕ) (ys : List A)
      → n ≤ m
      → All (λ y. m ≤ key y) ys
      → All (λ y. n ≤ key y) ys
  least_weaken key n m [] l a = tt
  least_weaken key n m (y ∷ ys) l a = (omega arith, least_weaken key n m ys l a.1)

  if-Least :
      (key : A → ℕ) (z y : A) (xs : List A) (b : Bool)
      → leb (key z) (key y) ≡ b
      → Least key xs (some y)
      → Least key (z ∷ xs) (some (if b then z else y))
  if-Least key z y xs true e (m, l) = (
    Memᴰ.head refl,
    (omega arith, least_weaken key (key z) (key y) xs (leb→le (key z) (key y) e) l),
  )
  if-Least key z y xs false e (m, l) = (Memᴰ.tail m, (leb_false→le (key z) (key y) e, l))

  sooner-Least :
      (key : A → ℕ) (z : A) (xs : List A) (o : Option A)
      → Least key xs o
      → Least key (z ∷ xs) (some (sooner (λ a b. leb (key a) (key b)) z o))
  sooner-Least key z xs none e = rw e (Memᴰ.head refl, (omega arith, tt))
  sooner-Least key z xs (some y) h = if-Least key z y xs (leb (key z) (key y)) refl h

  -- The first row of a table ordered by a number is one of its rows, with the least number.
  pub order_by-Least :
      (key : A → ℕ) (xs : List A) → Least key xs (head? (order_by (λ a b. leb (key a) (key b)) xs))
  order_by-Least key [] = refl
  order_by-Least key (z ∷ xs) =
      rw (head-insert_row (λ a b. leb (key a) (key b)) z (order_by (λ a b. leb (key a) (key b)) xs))
        (sooner-Least key z xs _ (order_by-Least key xs))

  pub update_rows-none :
      (p : A → Bool) (f : A → A) (xs : List A) → All (λ x. p x ≡ false) xs → update_rows p f xs ≡ xs
  update_rows-none p f [] h = refl
  update_rows-none p f (x ∷ xs) h = rw (h.0, update_rows-none p f xs h.1) refl

  pub count_rows-none :
      (p : A → Bool) (xs : List A) → All (λ x. p x ≡ false) xs → count_rows p xs ≡ 0
  count_rows-none p [] h = refl
  count_rows-none p (x ∷ xs) h = rw (h.0, count_rows-none p xs h.1) refl
