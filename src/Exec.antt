-- ===== src/Exec.antt =====
-- The shape of the daemon's methods: they read and write the database, read the clock, draw random
-- ids, publish events, and may return an error; what was written before an error stays written.
pub mod Keeps
pub mod Ensures
pub mod Run
use agentary.Prelude.{
  ℕ, zero, suc, String, Option, none, some, Bool, true, false, List, [], ◌∷◌, ◌++◌, ◌≡◌, refl,
  if◌then◌else◌,
}
use agentary.Store.Model.{Db}

-- Go's `error` values: what the code builds itself, and what the database and other programs report.
pub data Error : Type 0 where
  team_not_found : String → Error
  required : String → Error
  bad_version : Error
  bad_approval : Error
  repo_not_found : Error
  task_not_found : Error
  dependency_not_found : ℕ → Error
  no_initial_stage : Error
  constraint : Error
  driver : Error
  external : String → Error
  wrapped : String → Error → Error

pub data Result {ℓ} (A : Type ℓ) : Type ℓ where
  ok : A → Result A
  err : Error → Result A

-- What hub.PublishJSON is given; a key that is absent or null is `none`.
pub data Event : Type 0 where
  task_update : String → ℕ → Option String → Option String → Option String → Event
  agent_activity : String → String → ℕ → Error → Event
  message : String → String → String → Event
  message_created : String → ℕ → Event
  team_update : String → Event
  agent_update : String → String → Event
  repo_update : String → String → Event
  workflow_update : String → String → Event
  network_update : Event

-- The world of a call. `clock` and `ids` are the readings of time.Now and of crypto/rand still to
-- come; `faults` says of each coming statement whether the database driver fails it (none fails
-- after the end of the list); `foreign_keys` is whether the serving connection enforces them.
pub record World : Type 0 where
  pub db : Db
  pub clock : ℕ → ℕ
  pub ids : ℕ → String
  pub faults : List Bool
  pub foreign_keys : Bool
  pub published : List Event

abbrev pub Exec : Type 0 → Type 0
Exec A = World → Result A × World

module _ {A : Type 0} where
  unfoldable pub pure : A → Exec A
  pure a w = (ok a, w)

  unfoldable pub fail : Error → Exec A
  fail e w = (err e, w)

  unfoldable pub lift : Result A → Exec A
  lift r w = (r, w)

  -- A row that has to be there.
  unfoldable pub found : Error → Option A → Exec A
  found e none w = (err e, w)
  found e (some a) w = (ok a, w)

  unfoldable pub gets : (World → A) → Exec A
  gets f w = (ok (f w), w)

  -- A statement that the driver does not fail.
  abbrev pub commit : Result A × Db → World → Result A × World
  commit (r, d) w = (r, record w { db = d })

  abbrev pub sql_at : List Bool → (Db → Result A × Db) → Exec A
  sql_at [] f w = commit (f w.db) w
  sql_at (true ∷ rest) f w = (err driver, record w { faults = rest })
  sql_at (false ∷ rest) f w = commit (f w.db) (record w { faults = rest })

  -- One statement; a failed one changes nothing.
  unfoldable pub sql : (Db → Result A × Db) → Exec A
  sql f w = sql_at w.faults f w

  -- A SELECT.
  unfoldable pub query : (Db → A) → Exec A
  unfolding sql
  query f = sql (λ d. (ok (f d), d))

-- An INSERT, UPDATE or DELETE that cannot be refused.
unfoldable pub execute : (Db → Db) → Exec Unit
unfolding sql
execute f = sql (λ d. (ok tt, f d))

-- time.Now().UTC().Unix()
unfoldable pub now : Exec ℕ
now w = (ok (w.clock 0), record w { clock = λ k. w.clock (suc k) })

-- randomID
unfoldable pub random_id : Exec String
random_id w = (ok (w.ids 0), record w { ids = λ k. w.ids (suc k) })

-- hub.PublishJSON, whose subscribers take what they can and never hold the caller.
unfoldable pub publish : Event → Exec Unit
publish e w = (ok tt, record w { published = w.published ++ e ∷ [] })

-- `_ = m`: the error is dropped, what was written stays.
unfoldable pub ignore : {A : Type 0} → Exec A → Exec Unit
ignore m w = (ok tt, (m w).1)

-- `if !b { return e }`
unfoldable pub guard : Bool → Error → Exec Unit
guard b e w = (if b then ok tt else err e, w)

-- `if b { m }`
unfoldable pub when : Bool → Exec Unit → Exec Unit
when b m w = if b then m w else (ok tt, w)

module _ {A B : Type 0} where
  abbrev pub continue : Result A → (A → Exec B) → Exec B
  continue (ok a) f w = f a w
  continue (err e) f w = (err e, w)

  -- `x, err := m; if err != nil { return err }; f(x)`
  infixl 10 ◌>>=◌ ◌>>◌
  unfoldable pub ◌>>=◌ : Exec A → (A → Exec B) → Exec B
  unfolding pure fail lift found gets sql query execute now random_id publish ignore guard when
  ◌>>=◌ m f w = let (r, w') = m w in continue r f w'

  abbrev pub ◌>>◌ : Exec A → Exec B → Exec B
  m >> k = m >>= λ _. k

  -- `x, err := m` where the code looks at `err` itself.
  unfoldable pub attempt : Exec A → (Result A → Exec B) → Exec B
  attempt m f w = let (r, w') = m w in f r w'
