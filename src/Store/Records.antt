-- ===== src/Store/Records.antt =====
-- internal/store/queries.go, what hangs on a task or a team: CreateTaskComment, ListTaskComments,
-- AddTaskAttachment, RemoveTaskAttachment, ListTaskAttachments, CreateTaskReview, ListTaskReviews,
-- ListRepos, CreateRepo, SetRepoApproval.
use agentary.Prelude.{
  ℕ, suc, String, Option, Bool, not, ◌&&◌, ◌||◌, List, [], ◌∷◌, ◌++◌, map, leb, eqb, ltb,
  if◌then◌else◌, ◌==◌, any, select, delete_rows, update_rows, count_rows, order_by,
}
use agentary.Store.Model.{TaskRow, TaskComment, TaskAttachment, TaskReview, Repo, RepoRow, Db}
use agentary.Store.Teams.{get_team_by_name}
use agentary.Exec.{
  Exec, Result, ok, err, required, bad_approval, repo_not_found, constraint, gets, sql, query,
  execute, now, random_id, ◌>>=◌, ◌>>◌, guard,
}

-- The foreign keys of a row that names a task: enforced, they want the task to exist.
unfoldable pub refused : Bool → ℕ → Db → Bool
refused foreign_keys id d = foreign_keys && not (any (λ (r : TaskRow). eqb r.task_id id) d.tasks)

unfoldable pub insert_comment : Bool → ℕ → String → String → String → ℕ → Db → Result ℕ × Db
unfolding refused
insert_comment foreign_keys id team author body at d =
    if refused foreign_keys id d then (err constraint, d) else (
      ok d.next_comment,
      record d {
        comments =
            d.comments
            ++ record {
              comment_id = d.next_comment;
              task_id = id;
              team_id = team;
              author = author;
              body = body;
              created_at = at;
            }
              ∷ [];
        next_comment = suc d.next_comment;
      },
    )

-- CreateTaskComment
unfoldable pub create_task_comment : String → ℕ → String → String → Exec ℕ
unfolding insert_comment
create_task_comment team_name id author body = do
  team ← get_team_by_name team_name
  at ← now
  foreign_keys ← gets (λ w. w.foreign_keys)
  sql (insert_comment foreign_keys id team.team_id author body at)

-- ListTaskComments: newest first.
unfoldable pub list_task_comments : String → ℕ → Exec (List TaskComment)
list_task_comments team_name id = do
  team ← get_team_by_name team_name
  query λ d.
      order_by (λ (a b : TaskComment). leb b.created_at a.created_at)
        (select (λ r. eqb r.task_id id && r.team_id == team.team_id) d.comments)

-- INSERT OR IGNORE: (task_id, file_path) is UNIQUE; a missing task is refused all the same.
unfoldable pub insert_attachment : Bool → ℕ → String → String → ℕ → Db → Result (Unit {0}) × Db
unfolding refused
insert_attachment foreign_keys id team file_path at d =
    if any (λ (r : TaskAttachment). eqb r.task_id id && r.file_path == file_path) d.attachments
    then (ok tt, d)
    else if refused foreign_keys id d
    then (err constraint, d)
    else (
      ok tt,
      record d {
        attachments =
            d.attachments
            ++ record {
              attachment_id = d.next_attachment;
              task_id = id;
              team_id = team;
              file_path = file_path;
              created_at = at;
            }
              ∷ [];
        next_attachment = suc d.next_attachment;
      },
    )

-- AddTaskAttachment
unfoldable pub add_task_attachment : String → ℕ → String → Exec Unit
unfolding insert_attachment
add_task_attachment team_name id file_path = do
  team ← get_team_by_name team_name
  at ← now
  foreign_keys ← gets (λ w. w.foreign_keys)
  sql (insert_attachment foreign_keys id team.team_id file_path at)

-- RemoveTaskAttachment
unfoldable pub remove_task_attachment : String → ℕ → String → Exec Unit
remove_task_attachment team_name id file_path = do
  team ← get_team_by_name team_name
  execute λ d. record d {
    attachments =
        delete_rows
          (λ (r : TaskAttachment).
            eqb r.task_id id && r.team_id == team.team_id && r.file_path == file_path)
          d.attachments;
  }

-- ListTaskAttachments: oldest first.
unfoldable pub list_task_attachments : String → ℕ → Exec (List TaskAttachment)
list_task_attachments team_name id = do
  team ← get_team_by_name team_name
  query λ d.
      order_by (λ (a b : TaskAttachment). leb a.created_at b.created_at)
        (select (λ r. eqb r.task_id id && r.team_id == team.team_id) d.attachments)

unfoldable pub insert_review : Bool → ℕ → String → String → String → String → ℕ → Db → Result ℕ × Db
unfolding refused
insert_review foreign_keys id team reviewer outcome comments at d =
    if refused foreign_keys id d then (err constraint, d) else (
      ok d.next_review,
      record d {
        reviews =
            d.reviews
            ++ record {
              review_id = d.next_review;
              task_id = id;
              team_id = team;
              reviewer_agent = reviewer;
              outcome = outcome;
              comments = comments;
              created_at = at;
            }
              ∷ [];
        next_review = suc d.next_review;
      },
    )

-- CreateTaskReview
unfoldable pub create_task_review : String → ℕ → String → String → String → Exec ℕ
unfolding insert_review
create_task_review team_name id reviewer outcome comments = do
  team ← get_team_by_name team_name
  at ← now
  foreign_keys ← gets (λ w. w.foreign_keys)
  sql (insert_review foreign_keys id team.team_id reviewer outcome comments at)

-- ListTaskReviews: newest first.
unfoldable pub list_task_reviews : String → ℕ → Exec (List TaskReview)
list_task_reviews team_name id = do
  team ← get_team_by_name team_name
  query λ d.
      order_by (λ (a b : TaskReview). leb b.created_at a.created_at)
        (select (λ r. eqb r.task_id id && r.team_id == team.team_id) d.reviews)

-- ListRepos: oldest first.
unfoldable pub list_repos : String → Exec (List Repo)
list_repos team_name = do
  team ← get_team_by_name team_name
  query λ d.
      order_by (λ a b. leb a.created_at b.created_at)
        (map (λ (r : RepoRow). r.repo) (select (λ r. r.team_id == team.team_id) d.repos))

-- `repo_id` is the primary key and (team_id, name) is UNIQUE.
unfoldable pub insert_repo : RepoRow → Db → Result (Unit {0}) × Db
insert_repo r d =
    if any (λ s. s.repo_id == r.repo_id || s.team_id == r.team_id && s.repo.name == r.repo.name)
      d.repos
    then (err constraint, d)
    else (ok tt, record d { repos = d.repos ++ r ∷ [] })

-- CreateRepo
unfoldable pub create_repo : String → String → String → String → Option String → Exec Unit
unfolding insert_repo
create_repo team_name name source approval test_cmd = do
  team ← get_team_by_name team_name
  guard (not (name == "")) (required "repo name")
  guard (not (source == "")) (required "repo source")
  let approval' = if approval == "" then "manual" else approval
  at ← now
  id ← random_id
  sql (
      insert_repo (record {
        repo_id = id;
        team_id = team.team_id;
        repo = record {
          name = name;
          source = source;
          approval = approval';
          test_cmd = test_cmd;
          created_at = at;
        };
      }))

unfoldable pub approve_row : String → String → String → Db → Result ℕ × Db
approve_row team name approval d =
    let named = λ (r : RepoRow). r.team_id == team && r.repo.name == name in
    (
      ok (count_rows named d.repos),
      record d {
        repos =
            update_rows named (λ r. record r { repo = record r.repo { approval = approval } })
              d.repos;
      },
    )

-- SetRepoApproval
unfoldable pub set_repo_approval : String → String → String → Exec Unit
unfolding approve_row
set_repo_approval team_name name approval = do
  guard (approval == "auto" || approval == "manual") bad_approval
  team ← get_team_by_name team_name
  n ← sql (approve_row team.team_id name approval)
  guard (ltb 0 n) repo_not_found
