-- ===== src/Exec/Ensures.antt =====
-- What holds of the result and of the database after an action, whichever statements fail.
use agentary.Prelude.{◌≡◌, refl, Bool, true, false, List, [], ◌∷◌, Option, none, some, ℕ}
use agentary.Store.Model.{Db}
use agentary.Exec.{
  Error, driver, World, Result, ok, err, Exec, pure, lift, found, sql, sql_at, query, now, ◌>>=◌,
}

pub record Ensures {ℓ} {A : Type 0} (P : Db → Type ℓ) (m : Exec A) (Q : Result A → Db → Type ℓ)
    : Type ℓ where
  pub at : (w : World) → P w.db → Q (m w).0 (m w).1.db

module _ {ℓ} {A : Type 0} (P : Db → Type ℓ) (Q : Result A → Db → Type ℓ) where
  sql_at-ensures :
      (faults : List Bool) (f : Db → Result A × Db) (w : World)
      → ((d : Db) → P d → Q (f d).0 (f d).1)
      → ((d : Db) → P d → Q (err driver) d)
      → P w.db
      → Q (sql_at faults f w).0 (sql_at faults f w).1.db
  sql_at-ensures [] f w k j h = k w.db h
  sql_at-ensures (true ∷ rest) f w k j h = j w.db h
  sql_at-ensures (false ∷ rest) f w k j h = k w.db h

module _ {ℓ} {A : Type 0} {P : Db → Type ℓ} {Q : Result A → Db → Type ℓ} where
  -- A statement either runs, or fails and changes nothing.
  pub Ensures-sql :
      (f : Db → Result A × Db)
      → ((d : Db) → P d → Q (f d).0 (f d).1)
      → ((d : Db) → P d → Q (err driver) d)
      → Ensures P (sql f) Q
  unfolding sql
  Ensures-sql f k j = record { at = λ w h. sql_at-ensures P Q w.faults f w k j h }

  pub Ensures-query :
      (f : Db → A)
      → ((d : Db) → P d → Q (ok (f d)) d)
      → ((d : Db) → P d → Q (err driver) d)
      → Ensures P (query f) Q
  unfolding query
  Ensures-query f k j = Ensures-sql (λ d. (ok (f d), d)) k j

  pub Ensures-pure : (a : A) → ((d : Db) → P d → Q (ok a) d) → Ensures P (pure a) Q
  unfolding pure
  Ensures-pure a k = record { at = λ w h. k w.db h }

  pub Ensures-found :
      (e : Error) (o : Option A)
      → ((a : A) (d : Db) → o ≡ some a → P d → Q (ok a) d)
      → ((d : Db) → P d → Q (err e) d)
      → Ensures P (found e o) Q
  unfolding found
  Ensures-found e none k j = record { at = λ w h. j w.db h }
  Ensures-found e (some a) k j = record { at = λ w h. k a w.db refl h }

module _ {ℓ} {P : Db → Type ℓ} {Q : Result ℕ → Db → Type ℓ} where
  pub Ensures-now : ((n : ℕ) (d : Db) → P d → Q (ok n) d) → Ensures P now Q
  unfolding now
  Ensures-now k = record { at = λ w h. k (w.clock 0) w.db h }

module _ {ℓ} {A B : Type 0} (R : Result A → Db → Type ℓ) (Q : Result B → Db → Type ℓ) where
  lift-ensures :
      (r : Result A) (f : A → Exec B) (w : World)
      → R r w.db
      → ((a : A) → Ensures (R (ok a)) (f a) Q)
      → ((e : Error) (d : Db) → R (err e) d → Q (err e) d)
      → Q ((lift r >>= f) w).0 ((lift r >>= f) w).1.db
  unfolding ◌>>=◌
  lift-ensures (ok a) f w h kf ke = (kf a).at w h
  lift-ensures (err e) f w h kf ke = ke e w.db h

module _ {ℓ} {A B : Type 0} {P : Db → Type ℓ} (R : Result A → Db → Type ℓ)
    {Q : Result B → Db → Type ℓ} where
  -- One step, then the rest; an error ends the action.
  pub Ensures-bind :
      (m : Exec A) (f : A → Exec B)
      → Ensures P m R
      → ((a : A) → Ensures (R (ok a)) (f a) Q)
      → ((e : Error) (d : Db) → R (err e) d → Q (err e) d)
      → Ensures P (m >>= f) Q
  unfolding ◌>>=◌
  Ensures-bind m f km kf ke = record {
    at = λ w h. let (r, w') = m w in lift-ensures R Q r f w' (km.at w h) kf ke;
  }
