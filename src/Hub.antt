-- ===== src/Hub.antt =====
-- internal/httpapi/sse.go: SSEHub, the daemon's event hub. A channel is known by a number; what the
-- map `subs` holds is the field `subscribed` of the channels. Publishers run one after another.
pub mod Channels
pub mod Delivery
use agentary.Prelude.{
  ℕ, zero, suc, ◌+◌, Bool, true, false, not, ◌&&◌, ◌||◌, List, [], ◌∷◌, ◌++◌, eqb, ltb,
  if◌then◌else◌, length,
}

-- make(chan []byte, 256)
pub record Channel (A : Type 0) : Type 0 where
  pub buffered : List A
  pub subscribed : Bool
  pub closed : Bool

-- Channels from `next` on are not made yet. `panicked` is whether a message was sent on a closed
-- channel, or a closed channel closed again.
pub record Hub (A : Type 0) : Type 0 where
  pub channel : ℕ → Channel A
  pub next : ℕ
  pub panicked : Bool

-- What `msg, ok := <-ch` finds.
pub data Received (A : Type 0) : Type 0 where
  message : A → Received A
  end_of_stream : Received A
  blocked : Received A

-- What the goroutines of the daemon do to the hub.
pub data Step (A : Type 0) : Type 0 where
  subscribe_step : Step A
  unsubscribe_step : ℕ → Step A
  publish_step : A → Step A
  receive_step : ℕ → Step A

abbrev pub capacity : ℕ
capacity = 256

-- Is there a number below `n` that passes?
abbrev pub any_below : ℕ → (ℕ → Bool) → Bool
any_below zero p = false
any_below (suc n) p = p n || any_below n p

module _ {A : Type 0} where
  abbrev pub unmade : Channel A
  unmade = record { buffered = []; subscribed = false; closed = false }

  -- NewSSEHub
  abbrev pub new_hub : Hub A
  new_hub = record { channel = λ k. unmade; next = 0; panicked = false }

  abbrev pub set_channel : ℕ → Channel A → Hub A → Hub A
  set_channel k c h = record h { channel = λ j. if eqb j k then c else h.channel j }

  -- Subscribe: the number of the channel, and the hub.
  unfoldable pub subscribe : Hub A → ℕ × Hub A
  subscribe h = (
    h.next,
    record (set_channel h.next (record { buffered = []; subscribed = true; closed = false }) h) {
      next = suc h.next;
    },
  )

  -- Unsubscribe: a channel that is not in the map is left alone.
  unfoldable pub unsubscribe : ℕ → Hub A → Hub A
  unsubscribe k h =
      let c = h.channel k in
      if c.subscribed
      then record (set_channel k (record c { subscribed = false; closed = true }) h) {
        panicked = h.panicked || c.closed;
      }
      else h

  -- `select { case ch <- b: default: }`
  unfoldable pub offer : A → Channel A → Channel A
  offer m c =
      if c.subscribed && ltb (length c.buffered) capacity
      then record c { buffered = c.buffered ++ m ∷ [] }
      else c

  -- PublishJSON, of the bytes of the message.
  unfoldable pub publish : A → Hub A → Hub A
  unfolding offer
  publish m h = record h {
    channel = λ k. offer m (h.channel k);
    panicked =
        h.panicked || any_below h.next (λ k. (h.channel k).subscribed && (h.channel k).closed);
  }

  abbrev pub take_first : Channel A → Received A × Channel A
  take_first c = elim c.buffered [
    | [] ↦ (if c.closed then end_of_stream else blocked, c)
    | m ∷ rest ↦ (message m, record c { buffered = rest })
  ]

  -- One iteration of the loop of Handler of a subscriber; one that finds nothing waits, and is tried again.
  unfoldable pub receive : ℕ → Hub A → Received A × Hub A
  receive k h = let (r, c) = take_first (h.channel k) in (r, set_channel k c h)

  unfoldable pub step : Step A → Hub A → Hub A
  unfolding subscribe unsubscribe publish receive
  step subscribe_step h = (subscribe h).1
  step (unsubscribe_step k) h = unsubscribe k h
  step (publish_step m) h = publish m h
  step (receive_step k) h = (receive k h).1

  unfoldable pub run : List (Step A) → Hub A → Hub A
  unfolding step
  run [] h = h
  run (s ∷ rest) h = run rest (step s h)
