-- ===== src/Hub/Delivery.antt =====
-- What a subscriber of the hub receives, against what was published.
use agentary.Prelude.{
  ℕ, ◌+◌, ◌≤◌, ◌<◌, Bool, true, false, ◌||◌, ◌&&◌, ltb, append_nil, append_assoc, eqb_iff, List, [],
  ◌∷◌, ◌++◌, ◌∙◌, eqb, if◌then◌else◌, length, ◌≡◌, refl, arith, ap, sym,
}
use agentary.Hub.{
  Channel, Hub, Received, message, end_of_stream, blocked, unsubscribe, offer, publish, receive,
  subscribe, Step, subscribe_step, unsubscribe_step, publish_step, receive_step, step, run,
  take_first,
}
use agentary.Hub.Channels.{length-snoc}

module _ {A : Type 0} where
  -- The messages of the publications among the steps.
  unfoldable pub sent : List (Step A) → List A
  sent [] = []
  sent (publish_step m ∷ ts) = m ∷ sent ts
  sent (subscribe_step ∷ ts) = sent ts
  sent (unsubscribe_step k ∷ ts) = sent ts
  sent (receive_step k ∷ ts) = sent ts

  abbrev pub taken : Received A → List A
  taken (message m) = m ∷ []
  taken end_of_stream = []
  taken blocked = []

  -- What a step takes out of channel k.
  abbrev pub taken_by : ℕ → Step A → Hub A → List A
  taken_by k (receive_step j) h = if eqb j k then taken (take_first (h.channel j)).0 else []
  taken_by k (publish_step m) h = []
  taken_by k subscribe_step h = []
  taken_by k (unsubscribe_step j) h = []

  -- The messages received from channel k in a run.
  unfoldable pub received : ℕ → List (Step A) → Hub A → List A
  unfolding step
  received k [] h = []
  received k (t ∷ ts) h = taken_by k t h ++ received k ts (step t h)

  -- Is channel k unsubscribed in these steps?
  unfoldable pub unsubscribes : ℕ → List (Step A) → Bool
  unsubscribes k [] = false
  unsubscribes k (unsubscribe_step j ∷ ts) = eqb j k || unsubscribes k ts
  unsubscribes k (publish_step m ∷ ts) = unsubscribes k ts
  unsubscribes k (subscribe_step ∷ ts) = unsubscribes k ts
  unsubscribes k (receive_step j ∷ ts) = unsubscribes k ts

  take_first_lem :
      (c : Channel A) → taken (take_first c).0 ++ (take_first c).1.buffered ≡ c.buffered
  take_first_lem c = first_of c.buffered
    where
      first_of :
          (b : List A)
          → taken (take_first (record c { buffered = b })).0
              ++ (take_first (record c { buffered = b })).1.buffered
            ≡ b
      first_of [] = ground arith
      first_of (m ∷ rest) = refl

  -- What a step puts into channel k.
  abbrev pub accepted_by : ℕ → Step A → Hub A → List A
  accepted_by k (publish_step m) h =
      if (h.channel k).subscribed && ltb (length (h.channel k).buffered) 256 then m ∷ [] else []
  accepted_by k (receive_step j) h = []
  accepted_by k subscribe_step h = []
  accepted_by k (unsubscribe_step j) h = []

  unfoldable pub accepted : ℕ → List (Step A) → Hub A → List A
  unfolding step
  accepted k [] h = []
  accepted k (t ∷ ts) h = accepted_by k t h ++ accepted k ts (step t h)

  -- The first list is the second with messages left out.
  pub data Within : List A → List A → Type 0 where
    done : Within [] []
    kept : {m : A} {xs ys : List A} → Within xs ys → Within (m ∷ xs) (m ∷ ys)
    dropped : {m : A} {xs ys : List A} → Within xs ys → Within xs (m ∷ ys)

  step_lem :
      (k : ℕ) (t : Step A) (h : Hub A)
      → k < h.next
      → taken_by k t h ++ ((step t h).channel k).buffered
        ≡ (h.channel k).buffered ++ accepted_by k t h
  unfolding step subscribe unsubscribe offer publish receive
  step_lem k subscribe_step h p =
      ground (arith, append_nil (h.channel k).buffered, eqb_iff k h.next)
  step_lem k (unsubscribe_step j) h p =
      ground (arith, append_nil (h.channel k).buffered, eqb_iff k j)
  step_lem k (publish_step m) h p = ground (arith, append_nil (h.channel k).buffered)
  step_lem k (receive_step j) h p = ground (
    arith,
    eqb_iff j k,
    eqb_iff k j,
    take_first_lem (h.channel j),
    append_nil (h.channel k).buffered,
    same_channel,
  )
    where
      same_channel : j ≡ k → (h.channel j).buffered ≡ (h.channel k).buffered
      same_channel q = ap (λ i. (h.channel i).buffered) q

  accepted-Within : (k : ℕ) (ts : List (Step A)) (h : Hub A) → Within (accepted k ts h) (sent ts)
  unfolding accepted sent
  accepted-Within k [] h = done
  accepted-Within k (subscribe_step ∷ ts) h = accepted-Within k ts _
  accepted-Within k (unsubscribe_step j ∷ ts) h = accepted-Within k ts _
  accepted-Within k (receive_step j ∷ ts) h = accepted-Within k ts _
  accepted-Within k (publish_step m ∷ ts) h =
      if-Within ((h.channel k).subscribed && ltb (length (h.channel k).buffered) 256)
        (accepted-Within k ts _)
    where
      if-Within :
          (b : Bool) {xs ys : List A}
          → Within xs ys
          → Within ((if b then m ∷ [] else []) ++ xs) (m ∷ ys)
      if-Within true w = kept w
      if-Within false w = dropped w

  next_lem : (t : Step A) (h : Hub A) (k : ℕ) → k < h.next → k < (step t h).next
  unfolding step subscribe unsubscribe publish receive
  next_lem subscribe_step h k p = omega arith
  next_lem (unsubscribe_step j) h k p = ground arith
  next_lem (publish_step m) h k p = p
  next_lem (receive_step j) h k p = p

  received_lem :
      (k : ℕ) (ts : List (Step A)) (h : Hub A)
      → k < h.next
      → received k ts h ++ ((run ts h).channel k).buffered
        ≡ (h.channel k).buffered ++ accepted k ts h
  unfolding received accepted run
  received_lem k [] h p = sym (append_nil _)
  received_lem k (t ∷ ts) h p =
      append_assoc (taken_by k t h) _ _
      ∙ ap (λ l. taken_by k t h ++ l) (received_lem k ts (step t h) (next_lem t h k p))
      ∙ sym (append_assoc (taken_by k t h) _ _)
      ∙ ap (λ l. l ++ accepted k ts (step t h)) (step_lem k t h p)
      ∙ append_assoc (h.channel k).buffered _ _

  take_first-subscribed : (c : Channel A) → (take_first c).1.subscribed ≡ c.subscribed
  take_first-subscribed c = ground arith

  take_first-length : (c : Channel A) → length (take_first c).1.buffered ≤ length c.buffered
  take_first-length c = ground arith

  step-subscribed :
      (k : ℕ) (t : Step A) (h : Hub A)
      → k < h.next
      → (h.channel k).subscribed ≡ true
      → unsubscribes k (t ∷ []) ≡ false
      → ((step t h).channel k).subscribed ≡ true
  unfolding step subscribe unsubscribe offer publish receive unsubscribes
  step-subscribed k subscribe_step h p q u = ground (arith, eqb_iff k h.next)
  step-subscribed k (unsubscribe_step j) h p q u = ground (arith, eqb_iff k j, eqb_iff j k)
  step-subscribed k (publish_step m) h p q u = ground arith
  step-subscribed k (receive_step j) h p q u =
      ground (arith, eqb_iff k j, take_first-subscribed (h.channel j), same_channel)
    where
      same_channel : k ≡ j → (h.channel j).subscribed ≡ true
      same_channel e = sym (ap (λ i. (h.channel i).subscribed) e) ∙ q

  step-length :
      (k : ℕ) (t : Step A) (h : Hub A)
      → k < h.next
      → length ((step t h).channel k).buffered
        ≤ length (h.channel k).buffered + length (sent (t ∷ []))
  unfolding step subscribe unsubscribe offer publish receive sent
  step-length k subscribe_step h p = ground (arith, eqb_iff k h.next)
  step-length k (unsubscribe_step j) h p = ground (arith, eqb_iff k j, same_channel)
    where
      same_channel : k ≡ j → (h.channel j).buffered ≡ (h.channel k).buffered
      same_channel e = sym (ap (λ i. (h.channel i).buffered) e)
  step-length k (publish_step m) h p = ground (arith, length-snoc (h.channel k).buffered m)
  step-length k (receive_step j) h p =
      ground (arith, eqb_iff k j, take_first-length (h.channel j), same_channel)
    where
      same_channel : k ≡ j → length (h.channel j).buffered ≡ length (h.channel k).buffered
      same_channel e = sym (ap (λ i. length (h.channel i).buffered) e)

  sent-cons : (t : Step A) (ts : List (Step A)) → sent (t ∷ ts) ≡ sent (t ∷ []) ++ sent ts
  unfolding sent
  sent-cons subscribe_step ts = refl
  sent-cons (unsubscribe_step j) ts = refl
  sent-cons (publish_step m) ts = refl
  sent-cons (receive_step j) ts = refl

  unsubscribes-cons :
      (k : ℕ) (t : Step A) (ts : List (Step A))
      → unsubscribes k (t ∷ ts) ≡ (unsubscribes k (t ∷ []) || unsubscribes k ts)
  unfolding unsubscribes
  unsubscribes-cons k subscribe_step ts = refl
  unsubscribes-cons k (unsubscribe_step j) ts = ground arith
  unsubscribes-cons k (publish_step m) ts = refl
  unsubscribes-cons k (receive_step j) ts = refl

  length-append : (xs ys : List A) → length (xs ++ ys) ≡ length xs + length ys
  length-append [] ys = omega arith
  length-append (x ∷ xs) ys = omega (arith, length-append xs ys)

  accepted_by-sent :
      (k : ℕ) (t : Step A) (h : Hub A)
      → (h.channel k).subscribed ≡ true
      → length (h.channel k).buffered + length (sent (t ∷ [])) ≤ 256
      → accepted_by k t h ≡ sent (t ∷ [])
  unfolding sent
  accepted_by-sent k subscribe_step h q b = refl
  accepted_by-sent k (unsubscribe_step j) h q b = refl
  accepted_by-sent k (publish_step m) h q b = ground arith
  accepted_by-sent k (receive_step j) h q b = refl

  -- A subscriber that is in the map, stays there, and has room for everything.
  accepted-sent :
      (k : ℕ) (ts : List (Step A)) (h : Hub A)
      → k < h.next
      → (h.channel k).subscribed ≡ true
      → unsubscribes k ts ≡ false
      → length (h.channel k).buffered + length (sent ts) ≤ 256
      → accepted k ts h ≡ sent ts
  unfolding accepted sent unsubscribes
  accepted-sent k [] h p q u b = refl
  accepted-sent k (t ∷ ts) h p q u b =
      ap (λ l. l ++ accepted k ts (step t h)) (accepted_by-sent k t h q (omega (arith, all_sent)))
      ∙ ap (λ l. sent (t ∷ []) ++ l)
          (accepted-sent k ts (step t h) (next_lem t h k p)
            (step-subscribed k t h p q (ground (arith, unsubscribes-cons k t ts)))
            (ground (arith, unsubscribes-cons k t ts))
            (omega (arith, all_sent, step-length k t h p)))
      ∙ sym (sent-cons t ts)
    where
      all_sent : length (sent (t ∷ ts)) ≡ length (sent (t ∷ [])) + length (sent ts)
      all_sent = ap length (sent-cons t ts) ∙ length-append (sent (t ∷ [])) (sent ts)

  -- A subscriber gets the published messages in their order, each at most once: what it has received
  -- and what its channel still holds is what the channel held first and then, some left out, what was
  -- published since. The channel is one that Subscribe has made.
  pub subscriber_gets_in_order :
      (k : ℕ) (ts : List (Step A)) (h : Hub A)
      → k < h.next
      → (got : List A) × (received k ts h ++ ((run ts h).channel k).buffered
          ≡ (h.channel k).buffered ++ got)
        × Within got (sent ts)
  subscriber_gets_in_order k ts h p =
      (accepted k ts h, received_lem k ts h p, accepted-Within k ts h)

  -- A subscriber that does not unsubscribe, and for which what its channel holds and what is
  -- published are at most 256 messages, loses none: what it has received and what the channel still
  -- holds is what the channel held first and then everything that was published. Other subscribers
  -- come, go and receive as they like.
  pub subscriber_gets_all :
      (k : ℕ) (ts : List (Step A)) (h : Hub A)
      → k < h.next
      → (h.channel k).subscribed ≡ true
      → unsubscribes k ts ≡ false
      → length (h.channel k).buffered + length (sent ts) ≤ 256
      → received k ts h ++ ((run ts h).channel k).buffered ≡ (h.channel k).buffered ++ sent ts
  subscriber_gets_all k ts h p q u b =
      received_lem k ts h p ∙ ap (λ l. (h.channel k).buffered ++ l) (accepted-sent k ts h p q u b)
