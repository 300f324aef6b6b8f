-- ===== src/Http/Handles.antt =====
-- Invariants of the database under handlers, one rule for each way to build a handler, and the
-- calls of the Store that handlers may make.
use agentary.Prelude.{
  ℕ, String, Option, none, some, Bool, true, false, ◌||◌, ◌≡◌, refl, ◌==◌, if◌then◌else◌,
}
use agentary.Store.Model.{Db}
use agentary.Store.Calls.{Call, update_task_call, create_task_call}
use agentary.Exec.{Exec, World, Result, ok, err, ignore}
use agentary.Exec.Keeps.{Keeps}
use agentary.Http.{
  Handler, Body, write_json, write_json_error, checked, listed, unchecked, silently, decoded,
  answer,
}
use agentary.Http.Tasks.{is_allowed}

-- The property survives the handler, whatever it answers and whichever statements fail.
pub record Handles {ℓ} (P : Db → Type ℓ) (h : Handler) : Type ℓ where
  pub handled : (w : World) → P w.db → P (h w).1.db

module _ {ℓ} {P : Db → Type ℓ} where
  pub Handles-write : (b : Body) → Handles P (write_json b)
  Handles-write b = record { handled = λ w h. h }

  pub Handles-error : (code : ℕ) (what : String) → Handles P (write_json_error code what)
  Handles-error code what = record { handled = λ w h. h }

  pub Handles-if :
      (test : Bool) (first second : Handler)
      → (test ≡ true → Handles P first)
      → (test ≡ false → Handles P second)
      → Handles P (if test then first else second)
  Handles-if true first second k j = k refl
  Handles-if false first second k j = j refl

module _ {ℓ} {A : Type 0} {P : Db → Type ℓ} where
  Handles-answer :
      (code : ℕ) (f : A → Handler) (r : Result A)
      → ((a : A) → Handles P (f a))
      → Handles P (answer code f r)
  Handles-answer code f (ok a) k = k a
  Handles-answer code f (err e) k = record { handled = λ w h. h }

  pub Handles-checked :
      (code : ℕ) (m : Exec A) (f : A → Handler)
      → Keeps P m
      → ((a : A) → Handles P (f a))
      → Handles P (checked code m f)
  Handles-checked code m f km kf = record {
    handled = λ w h. let (r, w') = m w in (Handles-answer code f r kf).handled w' (km.kept w h);
  }

  pub Handles-listed :
      (code : ℕ) (m : Exec A) (body : A → Body) → Keeps P m → Handles P (listed code m body)
  Handles-listed code m body km = Handles-checked code m _ km (λ a. Handles-write (body a))

  pub Handles-unchecked :
      (zero : A) (m : Exec A) (f : A → Handler)
      → Keeps P m
      → ((a : A) → Handles P (f a))
      → Handles P (unchecked zero m f)
  Handles-unchecked zero m f km kf = record {
    handled = λ w h. let (r, w') = m w in (kf _).handled w' (km.kept w h);
  }

  pub Handles-silently :
      (m : Exec A) (h : Handler) → Keeps P m → Handles P h → Handles P (silently m h)
  Handles-silently m k km kk = record {
    handled = λ w h. let (r, w') = m w in kk.handled w' (km.kept w h);
  }

  pub Handles-decoded :
      (o : Option A) (f : A → Handler) → ((a : A) → Handles P (f a)) → Handles P (decoded o f)
  Handles-decoded none f kf = Handles-error 400 "invalid json"
  Handles-decoded (some a) f kf = kf a

  -- A call whose result is dropped keeps what the method keeps.
  pub Keeps-ignored : (m : Exec A) → Keeps P (ignore m) → Keeps P m
  unfolding ignore
  Keeps-ignored m k = record { kept = λ w h. k.kept w h }

pub ruleset handles_rules = (
  Handles-write, Handles-error, Handles-if, Handles-checked, Handles-listed, Handles-unchecked,
  Handles-silently, Handles-decoded,
)

-- The calls of the Store that a request can lead to: a status is one of the eight, or "" where it
-- leaves the status as it is; a new task is to do or in progress.
abbrev pub Permitted : Call → Type 0
Permitted (update_task_call id status assignee) = (status == "" || is_allowed status) ≡ true
Permitted (create_task_call team title status workflow) =
    (status == "" || status == "todo" || status == "in_progress") ≡ true
Permitted c = Unit
