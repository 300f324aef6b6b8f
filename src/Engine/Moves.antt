-- ===== src/Engine/Moves.antt =====
-- What a workflow says about the way of a task, in the words of its rows: where an outcome leads, which
-- stages end the task, and what a move leaves of the task's row.
use mathlib.Core.List.{Memᴰ}
use agentary.Prelude.{
  String, none, some, Bool, true, false, not, ◌&&◌, ◌||◌, ◌≡◌, ◌≢◌, ◌⊎◌, inl, inr, List, [], ◌∷◌,
  All, sym, refl, ap, ◌∙◌, if◌then◌else◌, ◌==◌, eq_iff, arith, trim_space,
}
use agentary.Store.Model.{TaskRow, WorkflowStage, WorkflowTransition}
use agentary.Engine.{next_stage, is_terminal_in, outcome_of}

-- The first of the transitions that starts at `from` and has the outcome ends at `to`; there is none
-- where `to` is "".
unfoldable pub Leads : String → String → String → List WorkflowTransition → Type 0
Leads from outcome to [] = to ≡ ""
Leads from outcome to (t ∷ ts) =
    ((t.from_stage ≡ from) × (t.outcome ≡ outcome) × (t.to_stage ≡ to))
    ⊎ (((t.from_stage ≢ from) ⊎ (t.outcome ≢ outcome)) × Leads from outcome to ts)

-- Whether one of the stages has that name and ends the task.
unfoldable pub IsEnd : Bool → String → List WorkflowStage → Type 0
IsEnd true name ss =
    (s : WorkflowStage) × Memᴰ s ss × (s.stage_name ≡ name) × (s.stage_type ≡ "terminal")
IsEnd false name ss =
    All (λ (s : WorkflowStage). (s.stage_name ≢ name) ⊎ (s.stage_type ≢ "terminal")) ss

-- The outcome that an output stands for: "done" for an empty one and for "stub: ok".
unfoldable pub StandsFor : String → String → Type 0
StandsFor outcome output =
    (((output ≡ "") ⊎ (output ≡ "stub: ok")) × (outcome ≡ "done"))
    ⊎ ((output ≢ "") × (output ≢ "stub: ok") × (outcome ≡ output))

-- The row `u` is the row `r` after a move to the stage: if there is no stage to go to, nothing has
-- changed of stage, status and assignee; a stage that ends the task makes it done, with no assignee.
unfoldable pub IsMoved : String → Bool → TaskRow → TaskRow → Type 0
IsMoved to terminal r u =
    (u.current_stage ≡ (if to == "" then r.current_stage else some to))
    × (u.status ≡ (if not (to == "") && terminal then "done" else r.status))
    × (u.assignee ≡ (if not (to == "") && terminal then none else r.assignee))
    × (u.attempt_count ≡ r.attempt_count)

both_eq : (a b c d : String) → ((a ≢ b) ⊎ (c ≢ d)) → (a == b && c == d) ≡ false
both_eq a b c d (inl n) = ground (arith, n, eq_iff a b)
both_eq a b c d (inr n) = ground (arith, n, eq_iff c d)

pass : (a b : Bool) → a ≡ true → b ≡ true → (a && b) ≡ true
pass a b h k = ground (arith, h, k)

pub next_stage-Leads :
    (from outcome to : String) (ts : List WorkflowTransition)
    → Leads from outcome to ts
    → next_stage from outcome ts ≡ to
unfolding Leads next_stage
next_stage-Leads from outcome to [] e = sym e
next_stage-Leads from outcome to (t ∷ ts) (inl (f, o, e)) =
    rw
      (pass (t.from_stage == from) (t.outcome == outcome) ((eq_iff t.from_stage from).1 f)
        ((eq_iff t.outcome outcome).1 o))
      e
next_stage-Leads from outcome to (t ∷ ts) (inr (n, h)) =
    rw (both_eq t.from_stage from t.outcome outcome n) (next_stage-Leads from outcome to ts h)

any-terminal :
    (name : String) (s : WorkflowStage) (ss : List WorkflowStage)
    → Memᴰ s ss
    → s.stage_name ≡ name
    → s.stage_type ≡ "terminal"
    → is_terminal_in name ss ≡ true
unfolding is_terminal_in
any-terminal name s [] m n t = elim m [ ]
any-terminal name s (x ∷ ss) (Memᴰ.head e) n t =
    rw
      (pass (x.stage_name == name) (x.stage_type == "terminal")
        ((eq_iff x.stage_name name).1 (ap (λ s. s.stage_name) (sym e) ∙ n))
        ((eq_iff x.stage_type "terminal").1 (ap (λ s. s.stage_type) (sym e) ∙ t)))
      refl
any-terminal name s (x ∷ ss) (Memᴰ.tail m) n t = ground (arith, any-terminal name s ss m n t)

pub is_terminal_in-IsEnd :
    (b : Bool) (name : String) (ss : List WorkflowStage)
    → IsEnd b name ss
    → is_terminal_in name ss ≡ b
unfolding IsEnd is_terminal_in
is_terminal_in-IsEnd true name ss (s, m, n, t) = any-terminal name s ss m n t
is_terminal_in-IsEnd false name [] h = refl
is_terminal_in-IsEnd false name (s ∷ ss) (n, h) =
    rw (both_eq s.stage_name name s.stage_type "terminal" n) (is_terminal_in-IsEnd false name ss h)

pub outcome_of-StandsFor :
    (outcome output : String) → StandsFor outcome (trim_space output) → outcome_of output ≡ outcome
unfolding StandsFor outcome_of
outcome_of-StandsFor outcome output h = of_text (trim_space output) h
  where
    of_text :
        (text : String)
        → StandsFor outcome text
        → (if text == "" || text == "stub: ok" then "done" else text) ≡ outcome
    of_text text (inl (inl e, o)) = ground (arith, e, o, eq_iff text "")
    of_text text (inl (inr e, o)) = ground (arith, e, o, eq_iff text "stub: ok")
    of_text text (inr (n, m, o)) = ground (arith, n, m, o, eq_iff text "", eq_iff text "stub: ok")
