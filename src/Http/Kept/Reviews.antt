-- ===== src/Http/Kept/Reviews.antt =====
-- The handlers of a task's reviews and of its diff.
use agentary.Prelude.{ℕ, String, Option, none, some, List, [], ◌∷◌}
use agentary.Store.Model.{Db, Task, Agent}
use agentary.Store.Reads.{read_rules}
use agentary.Exec.Keeps.{Keeps, keeps_rules}
use agentary.Git.{diff}
use agentary.Exec.{Result, ok, err, pure, fail, wrapped}
use agentary.Http.{Request, Server}
use agentary.Http.Handles.{Handles}
use agentary.Http.Writes.{Kept, write_rules, pick_reviewer-Keeps, assigned-Keeps}
use agentary.Http.Kept.{KeptFor, method_rules}
use agentary.Http.Reviews.{
  approve_to, approve_outcome, approve_stage, approve, get_diff, get_reviews, announce_review,
  post_review, announce_stage, assign_reviewer, review_moved, request_review,
}

module _ {ℓ} {P : Db → Type ℓ} where
  diff-Keeps :
      (server : Server)
      → ((dir : String) (args : List String) → Keeps P (server.host.command dir args))
      → (dir base head : String) → Keeps P (diff server.host dir base head)
  unfolding diff
  diff-Keeps server commands dir base head = search (keeps_rules, diff_result)
    where
      diff_result :
          (r : Result String)
          → Keeps P (elim r [ ok out ↦ pure out | err e ↦ fail (wrapped "git diff" e) ])
      diff_result (ok out) = search keeps_rules
      diff_result (err e) = search keeps_rules

  pub get_diff-Handles :
      (server : Server) (task : Task) (req : Request)
      → ((dir : String) (args : List String) → Keeps P (server.host.command dir args))
      → Handles P (get_diff server task req)
  unfolding get_diff
  get_diff-Handles server task req commands = search (method_rules, diff-Keeps) depth 12

module _ {ℓ} {P : Db → Type ℓ} (team : String) (id : ℕ) where
  approve_to-Handles :
      Kept P → (workflow stage : String) → Handles P (approve_to team id workflow stage)
  unfolding approve_to
  approve_to-Handles calls workflow stage =
      search (method_rules, read_rules, write_rules, keeps_rules) depth 12

  approve_outcome-Handles :
      Kept P
      → (workflow stage outcome : String)
      → Handles P (approve_outcome team id workflow stage outcome)
  unfolding approve_outcome
  approve_outcome-Handles calls workflow stage outcome =
      search (method_rules, read_rules, approve_to-Handles)

  approve_stage-Handles :
      Kept P
      → (workflow stage : Option String) (outcome : String)
      → Handles P (approve_stage team id workflow stage outcome)
  approve_stage-Handles calls workflow none outcome = search method_rules
  approve_stage-Handles calls workflow (some stage) outcome =
      search (method_rules, approve_outcome-Handles)

  pub approve-Handles :
      (task : Task) (req : Request) → KeptFor P req → Handles P (approve team id task req)
  unfolding approve
  approve-Handles task req allow = search (method_rules, approve_stage-Handles)

  pub get_reviews-Handles : (req : Request) → Handles P (get_reviews team id req)
  unfolding get_reviews
  get_reviews-Handles req = search (method_rules, read_rules)

  announce_review-Handles : (row : Option Task) → Handles P (announce_review team id row)
  announce_review-Handles none = search method_rules
  announce_review-Handles (some t) = search (method_rules, keeps_rules)

  pub post_review-Handles : (req : Request) → KeptFor P req → Handles P (post_review team id req)
  unfolding post_review
  post_review-Handles req allow =
      search (method_rules, read_rules, write_rules, announce_review-Handles) depth 12

  announce_stage-Handles :
      (stage : String) (row : Option Task) → Handles P (announce_stage team id stage row)
  announce_stage-Handles stage none = search method_rules
  announce_stage-Handles stage (some t) = search (method_rules, keeps_rules)

  assign_reviewer-Handles :
      Kept P
      → (stage : String) (task : Task) (reviewer : String)
      → Handles P (assign_reviewer team id stage task reviewer)
  unfolding assign_reviewer
  assign_reviewer-Handles calls stage task reviewer =
      search (method_rules, keeps_rules, assigned-Keeps, announce_stage-Handles)

  review_moved-Handles :
      Kept P
      → (stage : String) (agents : List Agent) (row : Option Task)
      → Handles P (review_moved team id stage agents row)
  review_moved-Handles calls stage agents none =
      search (method_rules, read_rules, announce_stage-Handles)
  review_moved-Handles calls stage [] (some task) = search (announce_stage-Handles)
  review_moved-Handles calls stage (a ∷ rest) (some task) =
      search (method_rules, pick_reviewer-Keeps, assign_reviewer-Handles, announce_stage-Handles)

  pub request_review-Handles :
      (task : Task) (req : Request) → KeptFor P req → Handles P (request_review team id task req)
  unfolding request_review
  request_review-Handles task req allow =
      search (method_rules, read_rules, write_rules, review_moved-Handles) depth 16
