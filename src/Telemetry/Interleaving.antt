-- ===== src/Telemetry/Interleaving.antt =====
-- Every interleaving of the goroutines of internal/service/telemetry: what never happens to their
-- channels, and what a second stream of one device comes to.
use be_aether_node.Base.{
  ℕ, suc, String, true, false, none, some, List, [], ◌∷◌, ◌≡◌, refl, arith, eq_iff, ◌==◌,
}
use be_aether_node.Telemetry.Streams.{
  streaming, left, Streams, Action, publish_all, publish_device, stream_device, leave, close_device,
  stream_all, take, put, stop, receive, Outcome, blocked, panicked, next, new, set_channel,
  set_subscriber, open_channel, act, after, run,
}
use be_aether_node.Telemetry.Channels.{
  Streaming, IsSafe, new-IsSafe, open_channel-IsSafe, subscribed-IsSafe,
}
use be_aether_node.Telemetry.Steps.{
  Fine, publish-Fine, leave-Fine, close-Fine, take-Fine, stop-Fine, receive-Fine, put-Fine,
  publish_all-Fine,
}

module _ {T : Type 0} where
  act-Fine : (a : Action T) (st : Streams T) → IsSafe st → Fine (act a st)
  unfolding act
  act-Fine (publish_all t) st s = publish_all-Fine t st s
  act-Fine (publish_device sn t) st s = publish-Fine t sn st s
  act-Fine (stream_device sn) st s = subscribed-IsSafe sn st s
  act-Fine (leave c) st s = leave-Fine c st s
  act-Fine (close_device c) st s = close-Fine c st s
  act-Fine stream_all st s = open_channel-IsSafe none st s
  act-Fine (take c) st s = take-Fine c st s
  act-Fine (put c) st s = put-Fine c st s
  act-Fine (stop c) st s = stop-Fine c st s
  act-Fine (receive c) st s = receive-Fine c st s

  after-IsSafe :
      (o : Outcome T) (st : Streams T)
      → IsSafe st
      → Fine o
      → (st' : Streams T) × (after o st ≡ some st') × IsSafe st'
  after-IsSafe blocked st s f = (st, refl, s)
  after-IsSafe panicked st s f = absurd f
  after-IsSafe (next st') st s f = (st', refl, f)

  run-IsSafe :
      (actions : List (Action T)) (st : Streams T)
      → IsSafe st
      → (st' : Streams T) × (run actions (some st) ≡ some st') × IsSafe st'
  unfolding run
  run-IsSafe [] st s = (st, refl, s)
  run-IsSafe (a ∷ rest) st s =
      let (st1, e, s1) = after-IsSafe (act a st) st s (act-Fine a st s) in
      let (st', f, s') = run-IsSafe rest st1 s1 in (st', rw e f, s')

-- However the goroutines of publishers, streams and clients interleave from the start: none sends on
-- a closed channel or closes one twice, no channel buffers more than 100 messages, and every
-- subscription leads to a running stream of its device.
pub run-new-IsSafe :
    {T : Type 0} (actions : List (Action T))
    → (st : Streams T) × (run actions (some new) ≡ some st) × IsSafe st
run-new-IsSafe actions = run-IsSafe actions new new-IsSafe

equal_self : (n : ℕ) → (n == n) ≡ true
equal_self n = ground arith

not_suc : (n : ℕ) → (suc n == n) ≡ false
not_suc n = ground arith

not_next : (n : ℕ) → (n == suc n) ≡ false
not_next n = ground arith

-- The state after two streams of a device, of which the first has left.
abbrev without_first : {T : Type 0} → String → Streams T → Streams T
without_first sn st =
    let st1 = set_subscriber sn (some st.opened) (open_channel (some sn) st) in
    let st2 = set_subscriber sn (some (suc st.opened)) (open_channel (some sn) st1) in
    set_channel st.opened (record { device = some sn; phase = left; queue = []; held = none })
      (set_subscriber sn none st2)

-- Whatever the state: if a second stream of a device starts and the first then leaves, the second
-- still runs, but the step that offers a message to the subscriber of that device changes nothing.
-- What is offered to the streams of all devices is another step.
pub second_stream_lost :
    {T : Type 0} (sn : String) (st : Streams T)
    → (st' : Streams T) × (run
          (stream_device sn ∷ (stream_device sn ∷ (leave st.opened ∷ [])))
          (some st)
        ≡ some st')
      × Streaming sn (suc st.opened) st'
      × ((t : T) → act (publish_device sn t) st' ≡ next st')
unfolding run act open_channel set_channel set_subscriber
second_stream_lost sn st = (
  without_first sn st,
  rw (equal_self st.opened, not_suc st.opened) refl,
  (
    record { device = some sn; phase = streaming; queue = []; held = none },
    rw (not_next st.opened, equal_self (suc st.opened)) refl,
    refl,
    refl,
  ),
  λ t. rw ((eq_iff sn sn).1 refl) refl,
)
