-- ===== src/Telemetry/Channels.antt =====
-- When a state of the channels of internal/service/telemetry is safe, and what keeps it so.
use be_aether_node.Base.{
  none≢some, some-injective, ℕ, ◌≤◌, String, true, false, Option, none, some, List, [], ◌∷◌, ◌≡◌,
  ◌≢◌, refl, sym, ap, subst, ◌∙◌, arith, inl, inr, Bool-cases, length, length-append, str_eq,
  eq_iff, ltb, ltb→lt, ◌==◌,
}
use be_aether_node.Telemetry.Streams.{
  streaming, left, closed, Channel, Streams, capacity, new, offer, set_channel, set_subscriber,
  open_channel,
}

same : (c d : ℕ) → (c == d) ≡ true → c ≡ d
same c d h = ground (arith, h)

pub streaming≢closed : streaming ≢ closed
streaming≢closed h = cc h

pub streaming≢left : streaming ≢ left
streaming≢left h = cc h

pub no_other : (s t : String) → str_eq s t ≡ false → s ≢ t
no_other s t b e = ground (arith, b, (eq_iff s t).1 e)

module _ {T : Type 0} where
  -- The buffer holds what it may, and only a running stream of all devices holds a message.
  pub record IsSound (ch : Channel T) : Type 0 where
    pub room : length ch.queue ≤ capacity
    pub holds : (t : T) → ch.held ≡ some t → (ch.device ≡ none) × (ch.phase ≡ streaming)

  -- The channel of that number is a running stream of the device.
  abbrev pub Streaming : String → ℕ → Streams T → Type 0
  Streaming sn c st =
      (ch : Channel T) × (st.channels c ≡ some ch) × (ch.device ≡ some sn) × (ch.phase ≡ streaming)

  pub record IsSafe (st : Streams T) : Type 0 where
    pub room : length st.all_devices ≤ capacity
    pub sound : (c : ℕ) (ch : Channel T) → st.channels c ≡ some ch → IsSound ch
    pub subscribed : (sn : String) (c : ℕ) → st.subscribers sn ≡ some c → Streaming sn c st
    pub fresh : (c : ℕ) → st.opened ≤ c → st.channels c ≡ none

  pub new-IsSafe : IsSafe new
  new-IsSafe = record {
    room = omega arith;
    sound = λ c ch h. cc h;
    subscribed = λ sn c h. cc h;
    fresh = λ c h. refl;
  }

  pub offer-room :
      (t : T) (queue : List T) → length queue ≤ capacity → length (offer t queue) ≤ capacity
  unfolding offer
  offer-room t queue h = elim (Bool-cases (ltb (length queue) capacity)) [
    | inl e ↦ rw e (omega (arith, length-append queue (t ∷ []), ltb→lt (length queue) capacity e))
    | inr e ↦ rw e h
  ]

  -- A channel changes and keeps its device; it still runs if somebody is subscribed to it.
  pub set_channel-IsSafe :
      (c : ℕ) (ch ch' : Channel T) (st : Streams T)
      → IsSafe st
      → st.channels c ≡ some ch
      → IsSound ch'
      → ch'.device ≡ ch.device
      → ((sn : String) → st.subscribers sn ≡ some c → ch'.phase ≡ streaming)
      → IsSafe (set_channel c ch' st)
  unfolding set_channel
  set_channel-IsSafe c ch ch' st s e good device running = record {
    room = s.room;
    sound = λ d x h. elim (Bool-cases (c == d)) [
      | inl b ↦ rw (some-injective (rw b at h)) at good
      | inr b ↦ s.sound d x (rw b at h)
    ];
    subscribed = λ sn d h.
        let (x, found, dev, phase) = s.subscribed sn d h in
        elim (Bool-cases (c == d)) [
          | inl b ↦ rw b (
            ch',
            refl,
            device ∙ rw (some-injective (sym e ∙ rw (← same c d b) at found)) dev,
            running sn (rw (same c d b) h),
          )
          | inr b ↦ rw b (x, found, dev, phase)
        ];
    fresh = λ d h. elim (Bool-cases (c == d)) [
      | inl b ↦ absurd (none≢some (sym (s.fresh c (rw (same c d b) h)) ∙ e))
      | inr b ↦ rw b (s.fresh d h)
    ];
  }

  -- A subscription is deleted.
  pub unsubscribed-IsSafe :
      (sn : String) (st : Streams T) → IsSafe st → IsSafe (set_subscriber sn none st)
  unfolding set_subscriber
  unsubscribed-IsSafe sn st s = record {
    room = s.room;
    sound = s.sound;
    subscribed = λ k c h. elim (Bool-cases (str_eq sn k)) [
      | inl b ↦ absurd (none≢some (rw b at h))
      | inr b ↦ s.subscribed k c (rw b at h)
    ];
    fresh = s.fresh;
  }

  empty-IsSound :
      (device : Option String)
      → IsSound (record { device = device; phase = streaming; queue = []; held = none })
  empty-IsSound device = record { room = omega arith; holds = λ t held. absurd (none≢some held) }

  pub open_channel-IsSafe :
      (device : Option String) (st : Streams T) → IsSafe st → IsSafe (open_channel device st)
  unfolding open_channel set_channel
  open_channel-IsSafe device st s = record {
    room = s.room;
    sound = λ d x h. elim (Bool-cases (st.opened == d)) [
      | inl b ↦ subst IsSound (some-injective (rw b at h)) (empty-IsSound device)
      | inr b ↦ s.sound d x (rw b at h)
    ];
    subscribed = λ sn d h.
        let (x, found, dev, phase) = s.subscribed sn d h in
        elim (Bool-cases (st.opened == d)) [
          | inl b ↦ absurd (none≢some (sym (s.fresh d (omega (arith, same st.opened d b))) ∙ found))
          | inr b ↦ rw b (x, found, dev, phase)
        ];
    fresh = λ d h. elim (Bool-cases (st.opened == d)) [
      | inl b ↦ absurd (omega (arith, h, same st.opened d b))
      | inr b ↦ rw b (s.fresh d (omega (arith, h)))
    ];
  }

  opened :
      (sn k : String) (st : Streams T) (c : ℕ)
      → str_eq sn k ≡ true
      → some st.opened ≡ some c
      → Streaming k c (open_channel (some sn) st)
  unfolding open_channel set_channel
  opened sn k st c b h =
      rw (← some-injective h, ← (eq_iff sn k).0 b)
        (
          record { device = some sn; phase = streaming; queue = []; held = none },
          ground arith,
          refl,
          refl,
        )

  -- The new channel is subscribed to its device.
  pub subscribed-IsSafe :
      (sn : String) (st : Streams T)
      → IsSafe st
      → IsSafe (set_subscriber sn (some st.opened) (open_channel (some sn) st))
  unfolding set_subscriber
  subscribed-IsSafe sn st s =
      let s' = open_channel-IsSafe (some sn) st s in
      record {
        room = s'.room;
        sound = s'.sound;
        subscribed = λ k c h. elim (Bool-cases (str_eq sn k)) [
          | inl b ↦ opened sn k st c b (rw b at h)
          | inr b ↦ s'.subscribed k c (rw b at h)
        ];
        fresh = s'.fresh;
      }

  pub subscribed-phase :
      (sn : String) (c : ℕ) (ch : Channel T) (st : Streams T)
      → IsSafe st
      → st.channels c ≡ some ch
      → st.subscribers sn ≡ some c
      → ch.phase ≡ streaming
  subscribed-phase sn c ch st s e h =
      let (x, found, dev, phase) = s.subscribed sn c h in
      ap (λ y. y.phase) (some-injective (sym e ∙ found)) ∙ phase
