-- ===== src/Telemetry/Steps.antt =====
-- Each step of the goroutines of internal/service/telemetry keeps a state of the channels safe.
use be_aether_node.Base.{
  none≢some, some-injective, ℕ, ◌≤◌, String, Option, none, some, List, [], ◌∷◌, ◌++◌, ◌≡◌, ◌≢◌,
  refl, sym, ap, subst, ◌∙◌, arith, inl, inr, Bool-cases, Option-cases, length, length-append,
  str_eq, ltb, ltb→lt, if◌then◌else◌,
}
use be_aether_node.Telemetry.Streams.{
  Phase, streaming, left, closed, Channel, Streams, publish_all, publish_device, leave,
  close_device, take, put, stop, receive, Outcome, blocked, panicked, next, capacity, offer,
  set_channel, set_subscriber, send_to, with_channel, if_selecting, take_from, receive_from, act,
}
use be_aether_node.Telemetry.Channels.{
  IsSafe, set_channel-IsSafe, unsubscribed-IsSafe, offer-room, subscribed-phase, no_other,
  streaming≢left, streaming≢closed,
}

module _ {T : Type 0} where
  -- The next state is safe, and nothing panics.
  abbrev pub Fine : Outcome T → Type 0
  Fine blocked = Unit
  Fine panicked = ⊥
  Fine (next st) = IsSafe st

  -- A running channel with another queue.
  queued-IsSafe :
      (c : ℕ) (ch : Channel T) (queue : List T) (st : Streams T)
      → IsSafe st
      → st.channels c ≡ some ch
      → length queue ≤ capacity
      → IsSafe (set_channel c (record ch { queue = queue }) st)
  queued-IsSafe c ch queue st s e room =
      set_channel-IsSafe c ch (record ch { queue = queue }) st s e
        (record { room = room; holds = (s.sound c ch e).holds }) refl
        (λ sn h. subscribed-phase sn c ch st s e h)

  send_to-Fine :
      (c : ℕ) (t : T) (ch : Channel T) (st : Streams T)
      → IsSafe st
      → st.channels c ≡ some ch
      → ch.phase ≡ streaming
      → Fine (send_to c t ch st)
  unfolding send_to
  send_to-Fine c t ch st s e phase =
      subst
        (λ p. Fine (elim p [
          | closed ↦ panicked
          | streaming ↦ next (set_channel c (record ch { queue = offer t ch.queue }) st)
          | left ↦ next (set_channel c (record ch { queue = offer t ch.queue }) st)
        ]))
        (sym phase)
        (queued-IsSafe c ch (offer t ch.queue) st s e (offer-room t ch.queue (s.sound c ch e).room))

  pub publish-Fine :
      (t : T) (sn : String) (st : Streams T) → IsSafe st → Fine (act (publish_device sn t) st)
  unfolding act
  publish-Fine t sn st s = elim (Option-cases (st.subscribers sn)) [
    | inl e ↦ rw e s
    | inr (c, e) ↦
        let (ch, found, dev, phase) = s.subscribed sn c e in
        rw (e, found) (send_to-Fine c t ch st s found phase)
  ]

  -- An action on a channel is fine if it is so on every channel that was made.
  with_channel-Fine :
      (c : ℕ) (st : Streams T) (go : Channel T → Outcome T)
      → ((ch : Channel T) → st.channels c ≡ some ch → Fine (go ch))
      → Fine (with_channel (st.channels c) go)
  with_channel-Fine c st go h = elim (Option-cases (st.channels c)) [
    | inl e ↦ rw e tt
    | inr (ch, e) ↦ rw e (h ch e)
  ]

  -- No subscription of another device than its own leads to a channel.
  left-IsSafe :
      (c : ℕ) (sn : String) (ch : Channel T) (st : Streams T)
      → IsSafe st
      → st.channels c ≡ some ch
      → ch.device ≡ some sn
      → IsSafe (set_channel c (record ch { phase = left }) (set_subscriber sn none st))
  unfolding set_subscriber
  left-IsSafe c sn ch st s e d =
      set_channel-IsSafe c ch (record ch { phase = left }) (set_subscriber sn none st)
        (unsubscribed-IsSafe sn st s) e
        (record {
          room = (s.sound c ch e).room;
          holds = λ t h. absurd (none≢some (sym ((s.sound c ch e).holds t h).0 ∙ d));
        })
        refl
        (λ k h. absurd (elim (Bool-cases (str_eq sn k)) [
          | inl b ↦ none≢some (rw b at h)
          | inr b ↦
              let (x, found, dev, phase) = s.subscribed k c (rw b at h) in
              no_other sn k b
                (some-injective (sym d ∙ ap (λ y. y.device) (some-injective (sym e ∙ found)) ∙ dev))
        ]))

  phase-Fine :
      (p : Phase) (x y z : Outcome T)
      → (p ≡ streaming → Fine x)
      → (p ≡ left → Fine y)
      → (p ≡ closed → Fine z)
      → Fine (elim p [ streaming ↦ x | left ↦ y | closed ↦ z ])
  phase-Fine streaming x y z hx hy hz = hx refl
  phase-Fine left x y z hx hy hz = hy refl
  phase-Fine closed x y z hx hy hz = hz refl

  option-Fine :
      {A : Type 0} (o : Option A) (x : Outcome T) (f : A → Outcome T)
      → (o ≡ none → Fine x)
      → ((a : A) → o ≡ some a → Fine (f a))
      → Fine (elim o [ none ↦ x | some a ↦ f a ])
  option-Fine none x f hx hf = hx refl
  option-Fine (some a) x f hx hf = hf a refl

  pub leave-Fine : (c : ℕ) (st : Streams T) → IsSafe st → Fine (act (leave c) st)
  unfolding act
  leave-Fine c st s = with_channel-Fine c st _ (λ ch e.
      option-Fine ch.device _ _ (λ _. tt)
        (λ sn d. phase-Fine ch.phase _ _ _ (λ _. left-IsSafe c sn ch st s e d) (λ _. tt) (λ _. tt)))

  -- A goroutine that is neither subscribed nor holds a message closes its channel.
  closed-IsSafe :
      (c : ℕ) (ch : Channel T) (st : Streams T)
      → IsSafe st
      → st.channels c ≡ some ch
      → ((t : T) → ch.held ≢ some t)
      → ((sn : String) → st.subscribers sn ≢ some c)
      → IsSafe (set_channel c (record ch { phase = closed }) st)
  closed-IsSafe c ch st s e idle apart =
      set_channel-IsSafe c ch (record ch { phase = closed }) st s e
        (record { room = (s.sound c ch e).room; holds = λ t h. absurd (idle t h) }) refl
        (λ sn h. absurd (apart sn h))

  pub close-Fine : (c : ℕ) (st : Streams T) → IsSafe st → Fine (act (close_device c) st)
  unfolding act
  close-Fine c st s = with_channel-Fine c st _ (λ ch e.
      phase-Fine ch.phase _ _ _ (λ _. tt)
        (λ p.
          closed-IsSafe c ch st s e (λ t h. streaming≢left (sym ((s.sound c ch e).holds t h).1 ∙ p))
            (λ sn h. streaming≢left (sym (subscribed-phase sn c ch st s e h) ∙ p)))
        (λ _. tt))

  -- A goroutine of StreamAllDevices that waits.
  selecting-Fine :
      (ch : Channel T) (go : Outcome T)
      → (ch.device ≡ none → ch.phase ≡ streaming → ch.held ≡ none → Fine go)
      → Fine (if_selecting ch go)
  selecting-Fine ch go h =
      option-Fine ch.device _ _
        (λ d.
          phase-Fine ch.phase _ _ _ (λ p. option-Fine ch.held _ _ (λ n. h d p n) (λ _ _. tt))
            (λ _. tt) (λ _. tt))
        (λ _ _. tt)

  take_from-Fine :
      (c : ℕ) (ch : Channel T) (queue : List T) (st : Streams T)
      → IsSafe st
      → st.channels c ≡ some ch
      → ch.device ≡ none
      → ch.phase ≡ streaming
      → st.all_devices ≡ queue
      → Fine (take_from c ch queue st)
  take_from-Fine c ch [] st s e d p q = tt
  take_from-Fine c ch (t ∷ rest) st s e d p q =
      set_channel-IsSafe c ch (record ch { held = some t }) (record st { all_devices = rest })
        (record {
          room = omega (arith, rw q at s.room);
          sound = s.sound;
          subscribed = s.subscribed;
          fresh = s.fresh;
        })
        e (record { room = (s.sound c ch e).room; holds = λ _ _. (d, p) }) refl (λ _ _. p)

  pub take-Fine : (c : ℕ) (st : Streams T) → IsSafe st → Fine (act (take c) st)
  unfolding act
  take-Fine c st s =
      with_channel-Fine c st _
        (λ ch e. selecting-Fine ch _ (λ d p n. take_from-Fine c ch st.all_devices st s e d p refl))

  pub stop-Fine : (c : ℕ) (st : Streams T) → IsSafe st → Fine (act (stop c) st)
  unfolding act
  stop-Fine c st s = with_channel-Fine c st _ (λ ch e. selecting-Fine ch _ (λ d p n.
      closed-IsSafe c ch st s e (λ t h. none≢some (sym n ∙ h))
        (λ sn h.
          let (x, found, dev, phase) = s.subscribed sn c h in
          none≢some (sym d ∙ ap (λ y. y.device) (some-injective (sym e ∙ found)) ∙ dev))))

  receive_from-Fine :
      (c : ℕ) (ch : Channel T) (queue : List T) (st : Streams T)
      → IsSafe st
      → st.channels c ≡ some ch
      → ch.queue ≡ queue
      → Fine (receive_from c ch queue st)
  receive_from-Fine c ch [] st s e q = tt
  receive_from-Fine c ch (t ∷ rest) st s e q =
      queued-IsSafe c ch rest st s e (omega (arith, rw q at (s.sound c ch e).room))

  pub receive-Fine : (c : ℕ) (st : Streams T) → IsSafe st → Fine (act (receive c) st)
  unfolding act
  receive-Fine c st s =
      with_channel-Fine c st _ (λ ch e. receive_from-Fine c ch ch.queue st s e refl)

  put_room-Fine :
      (c : ℕ) (t : T) (ch : Channel T) (st : Streams T)
      → IsSafe st
      → st.channels c ≡ some ch
      → ch.phase ≡ streaming
      → Fine (
          if ltb (length ch.queue) capacity
          then next (set_channel c (record ch { held = none; queue = ch.queue ++ (t ∷ []) }) st)
          else blocked)
  put_room-Fine c t ch st s e p = elim (Bool-cases (ltb (length ch.queue) capacity)) [
    | inl b ↦ rw b (
        set_channel-IsSafe c ch (record ch { held = none; queue = ch.queue ++ (t ∷ []) }) st s e
          (record {
            room =
                omega (arith, length-append ch.queue (t ∷ []), ltb→lt (length ch.queue) capacity b);
            holds = λ u h. absurd (none≢some h);
          })
          refl (λ _ _. p))
    | inr b ↦ rw b tt
  ]

  pub put-Fine : (c : ℕ) (st : Streams T) → IsSafe st → Fine (act (put c) st)
  unfolding act
  put-Fine c st s = with_channel-Fine c st _ (λ ch e.
      option-Fine ch.held _ _ (λ _. tt)
        (λ t h.
          let p = ((s.sound c ch e).holds t h).1 in
          phase-Fine ch.phase _ _ _ (λ _. put_room-Fine c t ch st s e p) (λ _. tt)
            (λ q. streaming≢closed (sym p ∙ q))))

  pub publish_all-Fine : (t : T) (st : Streams T) → IsSafe st → Fine (act (publish_all t) st)
  unfolding act
  publish_all-Fine t st s = record {
    room = offer-room t st.all_devices s.room;
    sound = s.sound;
    subscribed = s.subscribed;
    fresh = s.fresh;
  }
