-- ===== src/Hub/Channels.antt =====
-- The channels of the hub: their bound, and that no closed channel is sent to or closed again.
use agentary.Prelude.{
  ℕ, zero, suc, ◌≤◌, Bool, true, false, ◌&&◌, ◌||◌, List, [], ◌∷◌, ◌++◌, eqb, if◌then◌else◌, length,
  ◌≡◌, refl, arith,
}
use agentary.Hub.{
  Channel, Hub, any_below, new_hub, subscribe, unsubscribe, offer, publish, receive, Step,
  subscribe_step, unsubscribe_step, publish_step, receive_step, step, run, take_first, set_channel,
}

pub length-snoc : {A : Type 0} (xs : List A) (x : A) → length (xs ++ x ∷ []) ≡ suc (length xs)
length-snoc [] x = refl
length-snoc (y ∷ xs) x = omega (arith, length-snoc xs x)

-- A channel holds at most 256 messages, and one in the map is open.
pub record IsSound {A : Type 0} (c : Channel A) : Type 0 where
  pub bounded : length c.buffered ≤ 256
  pub alive : c.subscribed ≡ true → c.closed ≡ false

not-any_below : (n : ℕ) (p : ℕ → Bool) → ((k : ℕ) → p k ≡ false) → any_below n p ≡ false
not-any_below zero p f = refl
not-any_below (suc n) p f = ground (arith, f n, not-any_below n p f)

module _ {A : Type 0} where
  offer-IsSound : (m : A) (c : Channel A) → IsSound c → IsSound (offer m c)
  unfolding offer
  offer-IsSound m c s = record {
    bounded = ground (arith, length-snoc c.buffered m, s.bounded);
    alive = ground (arith, s.alive);
  }

  -- No channel in the map is closed, none holds more than its capacity, and nothing panicked.
  pub record IsSoundHub (h : Hub A) : Type 0 where
    pub sound : (k : ℕ) → IsSound (h.channel k)
    pub calm : h.panicked ≡ false

  if-IsSound : (b : Bool) {c d : Channel A} → IsSound c → IsSound d → IsSound (if b then c else d)
  if-IsSound true sc sd = sc
  if-IsSound false sc sd = sd

  take_first-IsSound :
      (b : List A) (s cl : Bool)
      → IsSound (record { buffered = b; subscribed = s; closed = cl })
      → IsSound (take_first (record { buffered = b; subscribed = s; closed = cl })).1
  take_first-IsSound [] s cl sc = sc
  take_first-IsSound (m ∷ rest) s cl sc = record {
    bounded = omega (arith, sc.bounded);
    alive = sc.alive;
  }

  set_channel-IsSound :
      (k : ℕ) (c : Channel A) (h : Hub A)
      → IsSound c
      → ((j : ℕ) → IsSound (h.channel j))
      → (j : ℕ) → IsSound ((set_channel k c h).channel j)
  set_channel-IsSound k c h sc s j = if-IsSound (eqb j k) sc (s j)

  subscribe-IsSoundHub : (h : Hub A) → IsSoundHub h → IsSoundHub (subscribe h).1
  unfolding subscribe
  subscribe-IsSoundHub h s = record {
    sound =
        set_channel-IsSound h.next _ h (record { bounded = omega arith; alive = λ p. refl })
          s.sound;
    calm = s.calm;
  }

  unsubscribe-IsSoundHub : (k : ℕ) (h : Hub A) → IsSoundHub h → IsSoundHub (unsubscribe k h)
  unfolding unsubscribe
  unsubscribe-IsSoundHub k h s = unsubscribe_at (h.channel k).subscribed refl
    where
      unsubscribe_at :
          (b : Bool)
          → (h.channel k).subscribed ≡ b
          → IsSoundHub (
              if b
              then record (set_channel k
                  (record (h.channel k) { subscribed = false; closed = true })
                  h) { panicked = h.panicked || (h.channel k).closed }
              else h)
      unsubscribe_at true p = record {
        sound =
            set_channel-IsSound k _ h
              (record { bounded = (s.sound k).bounded; alive = λ q. ground (arith, q) }) s.sound;
        calm = ground (arith, s.calm, (s.sound k).alive, p);
      }
      unsubscribe_at false p = s

  receive-IsSoundHub : (k : ℕ) (h : Hub A) → IsSoundHub h → IsSoundHub (receive k h).1
  unfolding receive
  receive-IsSoundHub k h s = record {
    sound = set_channel-IsSound k _ h (take_first-IsSound _ _ _ (s.sound k)) s.sound;
    calm = s.calm;
  }

  publish-IsSoundHub : (m : A) (h : Hub A) → IsSoundHub h → IsSoundHub (publish m h)
  unfolding publish
  publish-IsSoundHub m h s = record {
    sound = λ k. offer-IsSound m (h.channel k) (s.sound k);
    calm = ground (
      arith,
      s.calm,
      not-any_below h.next (λ k. (h.channel k).subscribed && (h.channel k).closed)
          (λ k. ground (arith, (s.sound k).alive)),
    );
  }

  step-IsSoundHub : (t : Step A) (h : Hub A) → IsSoundHub h → IsSoundHub (step t h)
  unfolding step
  step-IsSoundHub subscribe_step h s = subscribe-IsSoundHub h s
  step-IsSoundHub (unsubscribe_step k) h s = unsubscribe-IsSoundHub k h s
  step-IsSoundHub (publish_step m) h s = publish-IsSoundHub m h s
  step-IsSoundHub (receive_step k) h s = receive-IsSoundHub k h s

  run-IsSoundHub : (ts : List (Step A)) (h : Hub A) → IsSoundHub h → IsSoundHub (run ts h)
  unfolding run
  run-IsSoundHub [] h s = s
  run-IsSoundHub (t ∷ ts) h s = run-IsSoundHub ts (step t h) (step-IsSoundHub t h s)

  -- Whatever the daemon's goroutines do to the hub, in whatever order: a channel of the map is
  -- never closed, a channel never holds more than 256 messages, and no message is sent on a closed
  -- channel nor a closed channel closed again.
  pub hub_never_panics : (ts : List (Step A)) → IsSoundHub (run ts new_hub)
  hub_never_panics ts =
      run-IsSoundHub ts new_hub
        (record { sound = λ k. record { bounded = omega arith; alive = λ p. refl }; calm = refl })
