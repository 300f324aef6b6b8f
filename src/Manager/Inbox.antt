-- ===== src/Manager/Inbox.antt =====
-- What the manager does with a message that is neither a command nor a request, and with an event
-- of a task that is done, while the driver fails nothing.
use Prim.Native.String.{◌++◌ as str_append}
use agentary.Prelude.{
  ℕ, String, none, some, Bool, false, ◌≡◌, ap, ◌∙◌, ◌==◌, ◌&&◌, not, [], ◌∷◌, ◌++◌, eqb,
  update_rows, ltb, trim_space, cut_prefix, byte_len,
}
use agentary.Store.Model.{Team, Message}
use agentary.Store.Claims.{named}
use agentary.Store.Messages.{create_message, insert_message, is_unprocessed}
use agentary.Store.TaskRuns.{later, get_team_run}
use agentary.Exec.{World, ok, pure, message, publish, ◌>>=◌}
use agentary.Exec.Run.{bind_run, publish_run}
use agentary.Manager.{
  Desk, answer_content, handle_inbox_message, acknowledge, reply_to_sender, starts_with_slash,
}

-- The mailbox with one more message from the manager.
abbrev pub replied : Team → String → String → World → World
replied t sender body w = record (later w) {
  db = (insert_message t.team_id "manager" sender body (w.clock 0) w.db).1;
}

abbrev pub told : String → String → World → World
told team sender w = record w { published = w.published ++ message team "manager" sender ∷ [] }

-- The row of a reply.
abbrev pub reply_row : Team → String → String → World → Message
reply_row t sender body w = record {
  message_id = w.db.next_message;
  team_id = t.team_id;
  sender = "manager";
  recipient = sender;
  content = body;
  created_at = w.clock 0;
  processed_at = none;
}

-- Is this an unprocessed message for the manager of the team?
unfoldable pub waits_for : Team → Message → Bool
unfolding is_unprocessed
waits_for t r = r.team_id == t.team_id && r.recipient == "manager" && is_unprocessed r

-- The message of that number is marked.
abbrev pub marked : ℕ → World → World
marked id w = record (later w) {
  db = record w.db {
    messages =
        update_rows (λ (m : Message). eqb m.message_id id)
          (λ m. record m { processed_at = some (w.clock 0) }) w.db.messages;
  };
}

module _ (desk : Desk) (w : World) (team : String) (t : Team) (quiet : w.faults ≡ [])
    (there : named team w.db ≡ some t) where
  create_message_run :
      (sender recipient body : String)
      → create_message team sender recipient body w ≡ (
        ok w.db.next_message,
        record (later w) {
          db = (insert_message t.team_id sender recipient body (w.clock 0) w.db).1;
        },
      )
  unfolding create_message insert_message ◌>>=◌
  create_message_run sender recipient body = rw (get_team_run w quiet team t there) (rw quiet)

  reply_run :
      (sender body : String)
      → reply_to_sender desk team sender body w
        ≡ (ok tt, told team sender (replied t sender body w))
  unfolding reply_to_sender ◌>>=◌
  reply_run sender body = rw (create_message_run "manager" sender body)

  acknowledge_run :
      (c : String)
      → (ltb 10 (byte_len c) && not (starts_with_slash c)) ≡ false
      → acknowledge desk team c w ≡ (ok (str_append "Got: " c), w)
  unfolding acknowledge pure
  acknowledge_run c p = rw p

  -- A message that is no `/shell` command, and is at most ten bytes long or starts with "/", gets
  -- one reply, "Got: " and its text, in the mailbox of its sender; the reply is announced twice. The
  -- driver fails nothing and the team is there.
  pub plain_message_lem :
      (m : Message)
      → cut_prefix "/shell " (trim_space m.content) ≡ none
      → (ltb 10 (byte_len (trim_space m.content)) && not (starts_with_slash (trim_space m.content)))
        ≡ false
      → handle_inbox_message desk team m w ≡ (
        ok tt,
        told team m.sender
            (told team m.sender (replied t m.sender (str_append "Got: " (trim_space m.content)) w)),
      )
  unfolding handle_inbox_message
  plain_message_lem m c p =
      ap (λ o. answer_content desk team m.sender (trim_space m.content) o w) c
      ∙ bind_run _ _ w w (str_append "Got: " (trim_space m.content))
          (acknowledge_run (trim_space m.content) p)
      ∙ bind_run _ (λ _. publish (message team "manager" m.sender)) w
          (told team m.sender (replied t m.sender (str_append "Got: " (trim_space m.content)) w)) tt
          (reply_run m.sender (str_append "Got: " (trim_space m.content)))
      ∙ publish_run _ _
