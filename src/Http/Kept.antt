-- ===== src/Http/Kept.antt =====
-- Every handler keeps what the permitted calls keep; while it serves a GET it makes none of them.
pub mod Reviews
pub mod Tasks
pub mod Resources
pub mod Serve
use agentary.Prelude.{
  ℕ, ℤ, pos, negsuc, zero, suc, String, Option, none, some, ◌≡◌, ◌≢◌, refl, sym, ap, ◌∙◌, ◌||◌,
  ◌&&◌, not, true, false, Bool, ◌==◌, List, [], ◌∷◌, if◌then◌else◌, eq_iff, arith,
}
use agentary.Store.Model.{Db, Task, Agent}
use agentary.Store.Reads.{read_rules}
use agentary.Exec.Keeps.{Keeps, keeps_rules}
use agentary.Git.{diff}
use agentary.Http.{Request, Server, Handler}
use agentary.Http.Handles.{Handles, handles_rules, Handles-if}
use agentary.Http.Writes.{Kept, write_rules, pick_reviewer-Keeps}
use agentary.Http.Links.{
  post_comment, task_comments, post_attachment, delete_attachment, task_attachments, depend_on,
  task_dependencies,
}
use agentary.Http.Reviews.{
  approve_to, approve_outcome, approve_stage, approve, get_diff, get_reviews, announce_review,
  post_review, announce_stage, assign_reviewer, review_moved, request_review,
}

-- What a request may write: nothing if it is a GET.
abbrev pub KeptFor {ℓ} : (Db → Type ℓ) → Request → Type ℓ
KeptFor P req = req.method ≢ "GET" → Kept P

-- The handlers that take another method, or only that.
module _ {ℓ} {P : Db → Type ℓ} (req : Request) (allow : KeptFor P req) where
  on_method : (m : String) → (m == "GET") ≡ false → (req.method == m) ≡ true → Kept P
  on_method m n p = allow (λ q. ground (
    arith,
    eq_iff req.method m,
    ap (λ s. s == "GET") ((eq_iff req.method m).0 p),
    ap (λ s. s == "GET") q,
  ))

  pub Handles-post :
      (h k : Handler)
      → (Kept P → Handles P h)
      → Handles P k
      → Handles P (if req.method == "POST" then h else k)
  Handles-post h k f g = Handles-if _ h k (λ p. f (on_method "POST" refl p)) (λ p. g)

  pub Handles-patch :
      (h k : Handler)
      → (Kept P → Handles P h)
      → Handles P k
      → Handles P (if req.method == "PATCH" then h else k)
  Handles-patch h k f g = Handles-if _ h k (λ p. f (on_method "PATCH" refl p)) (λ p. g)

  pub Handles-put :
      (h k : Handler)
      → (Kept P → Handles P h)
      → Handles P k
      → Handles P (if req.method == "PUT" then h else k)
  Handles-put h k f g = Handles-if _ h k (λ p. f (on_method "PUT" refl p)) (λ p. g)

  pub Handles-delete :
      (h k : Handler)
      → (Kept P → Handles P h)
      → Handles P k
      → Handles P (if req.method == "DELETE" then h else k)
  Handles-delete h k f g = Handles-if _ h k (λ p. f (on_method "DELETE" refl p)) (λ p. g)

  -- `if r.Method != http.MethodPost { … }`
  pub Handles-only_post :
      (h k : Handler)
      → Handles P h
      → (Kept P → Handles P k)
      → Handles P (if not (req.method == "POST") then h else k)
  Handles-only_post h k f g =
      Handles-if _ h k (λ p. f) (λ p. g (on_method "POST" refl (ground (arith, p))))

pub ruleset method_rules =
    (handles_rules, Handles-post, Handles-patch, Handles-put, Handles-delete, Handles-only_post)

module _ {ℓ} {P : Db → Type ℓ} (team : String) (id : ℕ) (req : Request) where
  post_comment-Handles : Kept P → Handles P (post_comment team id req)
  unfolding post_comment
  post_comment-Handles calls = search (handles_rules, write_rules)

  post_attachment-Handles : Kept P → Handles P (post_attachment team id req)
  unfolding post_attachment
  post_attachment-Handles calls = search (handles_rules, write_rules)

  delete_attachment-Handles : Kept P → Handles P (delete_attachment team id req)
  unfolding delete_attachment
  delete_attachment-Handles calls = search (handles_rules, write_rules)

  depend_on-Handles : Kept P → (n : ℤ) → Handles P (depend_on team id n)
  depend_on-Handles calls (pos zero) = search handles_rules
  depend_on-Handles calls (pos (suc n)) = search (handles_rules, write_rules)
  depend_on-Handles calls (negsuc n) = search handles_rules

  pub task_comments-Handles : KeptFor P req → Handles P (task_comments team id req)
  unfolding task_comments
  task_comments-Handles allow = search (method_rules, read_rules, post_comment-Handles)

  pub task_attachments-Handles : KeptFor P req → Handles P (task_attachments team id req)
  unfolding task_attachments
  task_attachments-Handles allow =
      search (method_rules, read_rules, post_attachment-Handles, delete_attachment-Handles)

  pub task_dependencies-Handles : KeptFor P req → Handles P (task_dependencies team id req)
  unfolding task_dependencies
  task_dependencies-Handles allow = search (method_rules, read_rules, depend_on-Handles)
