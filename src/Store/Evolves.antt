-- ===== src/Store/Evolves.antt =====
-- What the statements on `tasks` leave alone: how a task may change over its life.
use agentary.Prelude.{ℕ, ◌≤◌, String, Option, some, ◌≡◌, refl, ◌∙◌, arith}
use agentary.Store.Model.{Task}
use agentary.Store.Tasks.{
  assign, claimed, failed, unassigned, rewound, staged, in_workflow, with_git,
}

-- `u` is a later state of `t`: the same number, title and creation, the DRI once it is set, and no
-- fewer attempts.
pub record Evolves (t u : Task) : Type 0 where
  pub same_id : u.task_id ≡ t.task_id
  pub same_title : u.title ≡ t.title
  pub same_creation : u.created_at ≡ t.created_at
  pub keeps_dri : (d : String) → t.dri ≡ some d → u.dri ≡ some d
  pub attempts_grow : t.attempt_count ≤ u.attempt_count

pub Evolves-refl : (t : Task) → Evolves t t
Evolves-refl t = record {
  same_id = refl;
  same_title = refl;
  same_creation = refl;
  keeps_dri = λ d h. h;
  attempts_grow = omega arith;
}

pub Evolves-trans : (t u v : Task) → Evolves t u → Evolves u v → Evolves t v
Evolves-trans t u v e f = record {
  same_id = f.same_id ∙ e.same_id;
  same_title = f.same_title ∙ e.same_title;
  same_creation = f.same_creation ∙ e.same_creation;
  keeps_dri = λ d h. f.keeps_dri d (e.keeps_dri d h);
  attempts_grow = omega arith;
}

pub assign-Evolves :
    (status : String) (assignee : Option String) (at : ℕ) (t : Task)
    → Evolves t (assign status assignee at t)
unfolding assign
assign-Evolves status assignee at t = ground arith

pub claimed-Evolves : (assignee : String) (at : ℕ) (t : Task) → Evolves t (claimed assignee at t)
unfolding claimed
claimed-Evolves assignee at t = ground arith

pub failed-Evolves : (at : ℕ) (t : Task) → Evolves t (failed at t)
unfolding failed
failed-Evolves at t = ground arith

pub unassigned-Evolves : (status : String) (at : ℕ) (t : Task) → Evolves t (unassigned status at t)
unfolding unassigned
unassigned-Evolves status at t = ground arith

pub rewound-Evolves : (stage : Option String) (at : ℕ) (t : Task) → Evolves t (rewound stage at t)
unfolding rewound
rewound-Evolves stage at t = ground arith

pub staged-Evolves : (stage : String) (at : ℕ) (t : Task) → Evolves t (staged stage at t)
unfolding staged
staged-Evolves stage at t = ground arith

pub in_workflow-Evolves :
    (workflow_id : Option String) (stage : String) (at : ℕ) (t : Task)
    → Evolves t (in_workflow workflow_id stage at t)
unfolding in_workflow
in_workflow-Evolves workflow_id stage at t = ground arith

pub with_git-Evolves :
    (path branch sha repo : Option String) (at : ℕ) (t : Task)
    → Evolves t (with_git path branch sha repo at t)
unfolding with_git
with_git-Evolves path branch sha repo at t = ground arith

pub ruleset evolves_rules = (
  assign-Evolves, claimed-Evolves, failed-Evolves, unassigned-Evolves, rewound-Evolves,
  staged-Evolves, in_workflow-Evolves, with_git-Evolves,
)
