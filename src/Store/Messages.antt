-- ===== src/Store/Messages.antt =====
-- internal/store/queries.go, the mailbox: CreateMessage, ListMessages, ListUnprocessedMessages,
-- MarkMessageProcessed.
use agentary.Prelude.{
  ℕ, suc, String, none, some, Bool, true, false, ◌&&◌, ◌||◌, List, [], ◌∷◌, ◌++◌, leb, eqb, ltb,
  if◌then◌else◌, ◌==◌, take, select, update_rows, order_by,
}
use agentary.Store.Model.{Message, Db}
use agentary.Store.Teams.{get_team_by_name}
use agentary.Exec.{Exec, Result, ok, pure, sql, query, execute, now, ◌>>=◌}

unfoldable pub insert_message : String → String → String → String → ℕ → Db → Result ℕ × Db
insert_message team sender recipient content at d = (
  ok d.next_message,
  record d {
    messages =
        d.messages
        ++ record {
          message_id = d.next_message;
          team_id = team;
          sender = sender;
          recipient = recipient;
          content = content;
          created_at = at;
          processed_at = none;
        }
          ∷ [];
    next_message = suc d.next_message;
  },
)

-- CreateMessage
unfoldable pub create_message : String → String → String → String → Exec ℕ
unfolding insert_message
create_message team_name sender recipient content = do
  team ← get_team_by_name team_name
  at ← now
  sql (insert_message team.team_id sender recipient content at)

abbrev pub limited : ℕ → List Message → List Message
limited limit rows = if ltb 0 limit then take limit rows else rows

-- ListMessages: newest first, of one recipient unless `recipient` is "".
unfoldable pub list_messages : String → String → ℕ → Exec (List Message)
list_messages team_name recipient limit = do
  team ← get_team_by_name team_name
  query λ d. limited limit (
      order_by (λ (a b : Message). leb b.created_at a.created_at)
        (select (λ r. r.team_id == team.team_id && (recipient == "" || r.recipient == recipient))
          d.messages))

unfoldable pub is_unprocessed : Message → Bool
is_unprocessed m = elim m.processed_at [ none ↦ true | some t ↦ false ]

-- ListUnprocessedMessages: oldest first.
unfoldable pub list_unprocessed_messages : String → String → ℕ → Exec (List Message)
unfolding is_unprocessed
list_unprocessed_messages team_name recipient limit = do
  team ← get_team_by_name team_name
  if recipient == ""
      then pure []
      else query λ d. limited limit (
          order_by (λ (a b : Message). leb a.created_at b.created_at)
            (select (λ r. r.team_id == team.team_id && r.recipient == recipient && is_unprocessed r)
              d.messages))

-- MarkMessageProcessed
unfoldable pub mark_message_processed : ℕ → Exec Unit
mark_message_processed id = do
  at ← now
  execute λ d. record d {
    messages =
        update_rows (λ (m : Message). eqb m.message_id id)
          (λ m. record m { processed_at = some at }) d.messages;
  }
