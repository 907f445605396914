-- ===== src/Telemetry/Streams.antt =====
-- The channels of internal/service/telemetry: the channel of all devices, the subscriptions of single
-- devices and the streams that read them, in the steps that goroutines interleave.
use be_aether_node.Base.{
  ℕ, suc, String, Option, none, some, List, [], ◌∷◌, ◌++◌, length, str_eq, ltb, ◌==◌, if◌then◌else◌,
}

-- A stream's goroutine runs, has left the subscriptions, or has closed the channel.
pub data Phase : Type 0 where
  streaming left closed : Phase

-- A channel that StreamDevice made for a device, or StreamAllDevices for none; what it buffers; and
-- what the goroutine of StreamAllDevices has taken and not yet sent on.
pub record Channel (T : Type 0) : Type 0 where
  pub device : Option String
  pub phase : Phase
  pub queue : List T
  pub held : Option T

-- The channel of all devices, the channels made so far, numbered from 0, and the subscribers.
pub record Streams (T : Type 0) : Type 0 where
  pub all_devices : List T
  pub opened : ℕ
  pub channels : ℕ → Option (Channel T)
  pub subscribers : String → Option ℕ

-- The steps of the publishers, of the streams and of their clients.
pub data Action (T : Type 0) : Type 0 where
  publish_all : T → Action T
  publish_device : String → T → Action T
  stream_device : String → Action T
  leave : ℕ → Action T
  close_device : ℕ → Action T
  stream_all : Action T
  take : ℕ → Action T
  put : ℕ → Action T
  stop : ℕ → Action T
  receive : ℕ → Action T

-- A goroutine that cannot go on waits; sending on a closed channel and closing one panic.
pub data Outcome (T : Type 0) : Type 0 where
  blocked : Outcome T
  panicked : Outcome T
  next : Streams T → Outcome T

-- make(chan *Telemetry, 100)
abbrev pub capacity : ℕ
capacity = 100

module _ {T : Type 0} where
  abbrev pub new : Streams T
  new = record { all_devices = []; opened = 0; channels = λ c. none; subscribers = λ sn. none }

  -- `select { case ch <- t: default: }` on a channel that is open.
  unfoldable pub offer : T → List T → List T
  offer t queue = if ltb (length queue) capacity then queue ++ (t ∷ []) else queue

  unfoldable pub set_channel : ℕ → Channel T → Streams T → Streams T
  set_channel c ch st = record st { channels = λ d. if c == d then some ch else st.channels d }

  unfoldable pub set_subscriber : String → Option ℕ → Streams T → Streams T
  set_subscriber sn c st = record st {
    subscribers = λ k. if str_eq sn k then c else st.subscribers k;
  }

  -- A new channel, and what is done with its number.
  unfoldable pub open_channel : Option String → Streams T → Streams T
  open_channel device st =
      record (set_channel st.opened
        (record { device = device; phase = streaming; queue = []; held = none }) st) {
          opened = suc st.opened;
        }

  unfoldable pub send_to : ℕ → T → Channel T → Streams T → Outcome T
  send_to c t ch st = elim ch.phase [
    | closed ↦ panicked
    | streaming ↦ next (set_channel c (record ch { queue = offer t ch.queue }) st)
    | left ↦ next (set_channel c (record ch { queue = offer t ch.queue }) st)
  ]

  abbrev send_if_made : ℕ → T → Option (Channel T) → Streams T → Outcome T
  send_if_made c t none st = blocked
  send_if_made c t (some ch) st = send_to c t ch st

  abbrev send_if_subscribed : T → Option ℕ → Streams T → Outcome T
  send_if_subscribed t none st = next st
  send_if_subscribed t (some c) st = send_if_made c t (st.channels c) st

  -- The goroutine of StreamDevice once its context is done, up to the unlock.
  abbrev leave_channel : ℕ → Channel T → Streams T → Outcome T
  leave_channel c ch st = elim ch.device [
    | none ↦ blocked
    | some sn ↦ elim ch.phase [
      | streaming ↦ next (set_channel c (record ch { phase = left }) (set_subscriber sn none st))
      | left ↦ blocked
      | closed ↦ blocked
    ]
  ]

  abbrev close_left : ℕ → Channel T → Streams T → Outcome T
  close_left c ch st = elim ch.phase [
    | streaming ↦ blocked
    | left ↦ next (set_channel c (record ch { phase = closed }) st)
    | closed ↦ blocked
  ]

  -- `case t := <-s.allDevices`
  abbrev pub take_from : ℕ → Channel T → List T → Streams T → Outcome T
  take_from c ch [] st = blocked
  take_from c ch (t ∷ rest) st =
      next (set_channel c (record ch { held = some t }) (record st { all_devices = rest }))

  -- A goroutine of StreamAllDevices that waits in its select.
  abbrev pub if_selecting : Channel T → Outcome T → Outcome T
  if_selecting ch go = elim ch.device [
    | some _ ↦ blocked
    | none ↦ elim ch.phase [
      | left ↦ blocked
      | closed ↦ blocked
      | streaming ↦ elim ch.held [ some _ ↦ blocked | none ↦ go ]
    ]
  ]

  -- `telemetryChan <- t` waits while the channel is full.
  abbrev pub put_held : ℕ → Channel T → Streams T → Outcome T
  put_held c ch st = elim ch.held [
    | none ↦ blocked
    | some t ↦ elim ch.phase [
      | closed ↦ panicked
      | left ↦ blocked
      | streaming ↦
          if ltb (length ch.queue) capacity
          then next (set_channel c (record ch { held = none; queue = ch.queue ++ (t ∷ []) }) st)
          else blocked
    ]
  ]

  abbrev pub receive_from : ℕ → Channel T → List T → Streams T → Outcome T
  receive_from c ch [] st = blocked
  receive_from c ch (t ∷ rest) st = next (set_channel c (record ch { queue = rest }) st)

  abbrev pub with_channel : Option (Channel T) → (Channel T → Outcome T) → Outcome T
  with_channel none go = blocked
  with_channel (some ch) go = go ch

  unfoldable pub act : Action T → Streams T → Outcome T
  act (publish_all t) st = next (record st { all_devices = offer t st.all_devices })
  act (publish_device sn t) st = send_if_subscribed t (st.subscribers sn) st
  act (stream_device sn) st = next (set_subscriber sn (some st.opened) (open_channel (some sn) st))
  act (leave c) st = with_channel (st.channels c) (λ ch. leave_channel c ch st)
  act (close_device c) st = with_channel (st.channels c) (λ ch. close_left c ch st)
  act stream_all st = next (open_channel none st)
  act (take c) st =
      with_channel (st.channels c) (λ ch. if_selecting ch (take_from c ch st.all_devices st))
  act (put c) st = with_channel (st.channels c) (λ ch. put_held c ch st)
  act (stop c) st =
      with_channel (st.channels c)
        (λ ch. if_selecting ch (next (set_channel c (record ch { phase = closed }) st)))
  act (receive c) st = with_channel (st.channels c) (λ ch. receive_from c ch ch.queue st)

  abbrev pub after : Outcome T → Streams T → Option (Streams T)
  after blocked st = some st
  after panicked st = none
  after (next st') st = some st'

  -- Actions one after the other; one that would wait is left out, and `none` is a panic.
  unfoldable pub run : List (Action T) → Option (Streams T) → Option (Streams T)
  run [] st = st
  run (a ∷ rest) none = none
  run (a ∷ rest) (some st) = run rest (after (act a st) st)
