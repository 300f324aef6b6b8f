-- ===== src/Review/Choice.antt =====
-- PickReviewer: whom it chooses.
use mathlib.Core.List.{Memᴰ}
use agentary.Prelude.{
  String, Option, none, some, Bool, true, false, not, ◌&&◌, ◌≡◌, refl, ap, ◌∙◌, arith, List, [],
  ◌∷◌, if◌then◌else◌, ◌==◌, head?, find_row, find_row-passes, find_row-mem, find_row-none, All-mem,
  is_blank, or_empty, inl, inr, Bool-cases, trim_space,
}
use agentary.Store.Model.{Agent, Task, WorkflowStage}
use agentary.Store.Workflows.{get_workflow_stages}
use agentary.Engine.{or_zero}
use agentary.Exec.{World, Result, ok, err, Exec, pure, attempt}
use agentary.Exec.Run.{bind_run}
use agentary.Review.{
  pick_reviewer, in_pool, name_of, pool_reviewer, stage_reviewer, any_reviewer, choose_reviewer,
}

-- Somebody of the team who is not the DRI.
abbrev pub IsOther : String → List Agent → String → Type 0
IsOther dri agents name = (a : Agent) × Memᴰ a agents × (a.name ≡ name) × ((name == dri) ≡ false)

pool_reviewer-IsOther :
    (dri : String) (agents : List Agent) (s : WorkflowStage) (a : Agent)
    → pool_reviewer dri agents s ≡ some a
    → IsOther dri agents a.name
unfolding pool_reviewer
pool_reviewer-IsOther dri agents s a h =
    elim (Bool-cases (s.stage_name == "InReview" && not (trim_space s.candidate_agents == ""))) [
      | inl e ↦
          let found = (rw e at h) in
          (
            a,
            find_row-mem _ agents a found,
            refl,
            other (in_pool s.candidate_agents a.name) (a.name == dri)
                (find_row-passes _ agents a found),
          )
      | inr e ↦ absurd (no_row (rw e at h))
    ]
  where
    other : (b c : Bool) → b && not c ≡ true → c ≡ false
    other b c h = ground arith

    no_row : none ≡ some a → ⊥
    no_row h = cc

stage_reviewer-IsOther :
    (dri : String) (agents : List Agent) (stages : List WorkflowStage) (a : Agent)
    → stage_reviewer dri agents stages ≡ some a
    → IsOther dri agents a.name
unfolding stage_reviewer
stage_reviewer-IsOther dri agents [] a h = cc
stage_reviewer-IsOther dri agents (s ∷ rest) a h =
    from (pool_reviewer dri agents s) refl (λ k. stage_reviewer-IsOther dri agents rest a k) h
  where
    from :
        (o : Option Agent)
        → pool_reviewer dri agents s ≡ o
        → (stage_reviewer dri agents rest ≡ some a → IsOther dri agents a.name)
        → elim o [ some b ↦ some b | none ↦ stage_reviewer dri agents rest ] ≡ some a
        → IsOther dri agents a.name
    from none e k h = k h
    from (some b) e k h = pool_reviewer-IsOther dri agents s a (e ∙ h)

not-true : (b : Bool) → not b ≡ true → b ≡ false
not-true b h = ground arith

choose_reviewer-IsOther :
    (dri : String) (agents : List Agent) (stages : List WorkflowStage) (b : Agent)
    → Memᴰ b agents
    → (b.name == dri) ≡ false
    → IsOther dri agents (choose_reviewer dri agents stages)
unfolding choose_reviewer any_reviewer
choose_reviewer-IsOther dri agents stages b m other = from (stage_reviewer dri agents stages) refl
  where
    all_dri : (name : String) → (name == dri) ≡ false → not (name == dri) ≡ false → ⊥
    all_dri name e f = ground arith

    anyone :
        (o : Option Agent)
        → find_row (λ (a : Agent). not (a.name == dri)) agents ≡ o
        → IsOther dri agents (elim o [ some a ↦ a.name | none ↦ name_of (head? agents) ])
    anyone none e = absurd (all_dri b.name other (All-mem _ agents b (find_row-none _ agents e) m))
    anyone (some a) e =
        (a, find_row-mem _ agents a e, refl, not-true _ (find_row-passes _ agents a e))

    from :
        (o : Option Agent)
        → stage_reviewer dri agents stages ≡ o
        → IsOther dri agents (elim o [ some a ↦ a.name | none ↦ any_reviewer dri agents ])
    from none e = anyone (find_row (λ (a : Agent). not (a.name == dri)) agents) refl
    from (some a) e = stage_reviewer-IsOther dri agents stages a e

zero_ok :
    (r : Result (List WorkflowStage)) (w : World)
    → (ss : List WorkflowStage) × (or_zero [] r w ≡ (ok ss, w))
unfolding pure
zero_ok (ok ss) w = (ss, refl)
zero_ok (err e) w = ([], refl)

-- The stages that PickReviewer looks at; a failed statement leaves none.
unfoldable read_stages : Task → Exec (List WorkflowStage)
read_stages task =
    if is_blank task.workflow_id
    then pure []
    else attempt (get_workflow_stages (or_empty task.workflow_id)) (or_zero [])

stages_read :
    (task : Task) (w : World)
    → (ss : List WorkflowStage) × (w' : World) × (read_stages task w ≡ (ok ss, w'))
unfolding pure attempt read_stages
stages_read task w = read (is_blank task.workflow_id)
  where
    read :
        (b : Bool)
        → (ss : List WorkflowStage) × (w' : World) × ((if b
                then pure []
                else attempt (get_workflow_stages (or_empty task.workflow_id)) (or_zero []))
              w
            ≡ (ok ss, w'))
    read true = ([], w, refl)
    read false =
        let (r, w') = get_workflow_stages (or_empty task.workflow_id) w in
        let (ss, e) = zero_ok r w' in (ss, w', e)

-- PickReviewer returns the name of an agent of the team other than the DRI whenever there is one,
-- whatever candidates the workflow's stages name, and whether or not its stages can be read.
pub pick_reviewer-IsOther :
    (w : World) (task : Task) (agents : List Agent) (b : Agent)
    → Memᴰ b agents
    → (b.name == or_empty task.dri) ≡ false
    → (name : String) × ((pick_reviewer task agents w).0 ≡ ok name)
      × IsOther (or_empty task.dri) agents name
unfolding pick_reviewer pure read_stages
pick_reviewer-IsOther w task agents b m other =
    let (ss, w', e) = stages_read task w in
    (
      choose_reviewer (or_empty task.dri) agents ss,
      ap (λ r. r.0) (bind_run _ _ w w' ss e),
      choose_reviewer-IsOther (or_empty task.dri) agents ss b m other,
    )
