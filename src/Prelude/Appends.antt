-- ===== src/Prelude/Appends.antt =====
-- Lists one after the other.
use mathlib.Core.Path.{◌≡◌, refl, ap}
use mathlib.Core.List.{List, [], ◌∷◌, ◌++◌}

module _ {A : Type 0} where
  pub append_one : (xs ys : List A) (x : A) → (xs ++ x ∷ []) ++ ys ≡ xs ++ (x ∷ ys)
  append_one [] ys x = refl
  append_one (z ∷ xs) ys x = ap (λ zs. z ∷ zs) (append_one xs ys x)

  pub append_nil : (xs : List A) → xs ++ [] ≡ xs
  append_nil [] = refl
  append_nil (x ∷ xs) = ap (λ zs. x ∷ zs) (append_nil xs)

  pub append_assoc : (xs ys zs : List A) → (xs ++ ys) ++ zs ≡ xs ++ (ys ++ zs)
  append_assoc [] ys zs = refl
  append_assoc (x ∷ xs) ys zs = ap (λ l. x ∷ l) (append_assoc xs ys zs)
