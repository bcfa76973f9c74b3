-- ===== src/Api/Delivered.antt =====
-- What `user_event` of core/src/serf/api.rs does to the node that makes the event.
use ruserf.Prelude.{
  ℕ, ◌+◌, ◌%◌, ◌≤◌, ◌<◌, ◌≡◌, refl, ◌∙◌, Bool, true, false, Option, none, some, List, [], ◌∷◌, ◌++◌,
  ltb, length, get_elem?, set, contains, arith, Bool-cases, inl, inr, get_elem?-some,
}
use ruserf.Types.{Bytes, MessageType, UserEvents, UserEventMessage, CrateEvent, user_event_eq}
use ruserf.Serf.{Serf, SerfMessage, Codec}
use ruserf.Clock.{u64_mod, increment, witness}
use ruserf.Events.Handler.{to_user_event, is_too_old, record_event, handle_user_event}
use ruserf.Events.Slots.{IsSeen}
use ruserf.Api.{Error, ok, err}
use ruserf.Api.Broadcast.{raw_message}
use ruserf.Api.UserEvent.{user_event_size_limit, new_user_event, send_user_event, user_event}

-- What is not seen is recorded.
records_unseen :
    (msg : UserEventMessage) (idx : ℕ) (buffer : List (Option UserEvents))
    (seen : Option UserEvents)
    → get_elem? buffer idx ≡ some seen
    → ¬ IsSeen (to_user_event msg) idx buffer
    → (slot : UserEvents) × (record_event seen msg ≡ some slot)
unfolding record_event
records_unseen msg idx buffer none found unseen =
    (record { ltime = msg.ltime; events = to_user_event msg ∷ [] }, refl)
records_unseen msg idx buffer (some old) found unseen =
    elim (Bool-cases (contains (to_user_event msg) old.events)) [
      | inl there ↦ absurd (unseen (old, found, there))
      | inr new ↦ (
        record old { events = old.events ++ to_user_event msg ∷ [] },
        rw (new, record_event) refl,
      )
    ]

module _ {I A : Type 0} where
  module _ (msg : UserEventMessage) (s : Serf I A) where
    -- The event is of the time that the clock has just left, and its slot does not hold its like.
    record IsStamped : Type 0 where
      small : msg.ltime + 1 < u64_mod
      at : s.event_clock ≡ msg.ltime + 1
      young : s.event_core.min_time ≤ msg.ltime
      room : 0 < length s.event_core.buffer
      unseen :
          ¬ IsSeen (to_user_event msg) (msg.ltime % length s.event_core.buffer) s.event_core.buffer

    handles_stamped :
        IsStamped
        → (slot : UserEvents) × (handle_user_event msg s
            ≡ some (
              record s {
                event_clock = witness s.event_clock msg.ltime;
                event_core = record s.event_core {
                  buffer =
                      set s.event_core.buffer (msg.ltime % length s.event_core.buffer) (some slot);
                };
                events = s.events ++ CrateEvent.user msg ∷ [];
              },
              true,
            ))
    unfolding handle_user_event
    handles_stamped h =
        let idx = msg.ltime % length s.event_core.buffer in
        let (seen, found) =
          get_elem?-some s.event_core.buffer idx (let room = h.room in omega arith) in
        let (slot, recorded) = records_unseen msg idx s.event_core.buffer seen found h.unseen in
        let kept : witness s.event_clock msg.ltime ≡ msg.ltime + 1 =
          unfold witness in (let at = h.at in ground arith) in
        let early : ltb msg.ltime s.event_core.min_time ≡ false = let y = h.young in ground arith in
        let recent : is_too_old (witness s.event_clock msg.ltime) (length s.event_core.buffer)
              msg.ltime
            ≡ false =
          let room = h.room in ground (arith, kept) in
        (slot, rw (early, recent, found, recorded, handle_user_event) refl)

module _ {I A : Type 0} (codec : Codec I A) (name payload : Bytes) (coalesce : Bool)
    (s : Serf I A) where
  abbrev message : UserEventMessage
  message = new_user_event name payload coalesce s

  abbrev encoded_len : ℕ
  encoded_len = codec.message_encoded_len (SerfMessage.user_event message)

  -- The event is within the limits, before and after it is encoded as `bytes`.
  pub record IsSendable (bytes : Bytes) : Type 0 where
    pub limit : length name + length payload ≤ s.opts.max_user_event_size
    pub sane : length name + length payload ≤ user_event_size_limit
    pub raw_limit :
        codec.message_encoded_len (SerfMessage.user_event (new_user_event name payload coalesce s))
        ≤ s.opts.max_user_event_size
    pub raw_sane :
        codec.message_encoded_len (SerfMessage.user_event (new_user_event name payload coalesce s))
        ≤ user_event_size_limit
    pub encoded :
        codec.encode_message (SerfMessage.user_event (new_user_event name payload coalesce s))
        ≡ some bytes

  module _ (M : Type 0) where
    sends_sendable :
        (bytes : Bytes)
        → IsSendable bytes
        → user_event {M = M} codec name payload coalesce s
          ≡ send_user_event codec message (raw_message MessageType.user_event encoded_len bytes) s
    unfolding user_event
    sends_sendable bytes h =
        let a : ltb s.opts.max_user_event_size (length name + length payload) ≡ false =
          let l = h.limit in ground arith in
        let b : ltb user_event_size_limit (length name + length payload) ≡ false =
          let l = h.sane in ground arith in
        let c : ltb s.opts.max_user_event_size encoded_len ≡ false =
          let l = h.raw_limit in ground arith in
        let d : ltb user_event_size_limit encoded_len ≡ false =
          let l = h.raw_sane in ground arith in
        rw (a, b, c, d, h.encoded, user_event) refl

    -- A user event within the limits is delivered on the node that makes it, and queued for the others,
    -- and its time, the event clock's, is behind the clock afterwards, provided that it has an encoding,
    -- that the clock is not below the least time and is below the last u64, and that the buffer has slots
    -- and that of the time does not hold an event of the same name and payload.
    pub user_event_delivers :
        (bytes : Bytes)
        → IsSendable bytes
        → s.event_clock + 1 < u64_mod
        → s.event_core.min_time ≤ s.event_clock
        → 0 < length s.event_core.buffer
        → ¬ IsSeen
            (record { name = name; payload = payload })
            (s.event_clock % length s.event_core.buffer)
            s.event_core.buffer
        → (s' : Serf I A) × (user_event {M = M} codec name payload coalesce s ≡ some (s', ok tt))
          × (s'.events ≡ s.events ++ CrateEvent.user (new_user_event name payload coalesce s) ∷ [])
          × (s'.event_clock ≡ s.event_clock + 1)
          × (s'.event_broadcasts
              ≡ s.event_broadcasts
                ++ raw_message MessageType.user_event
                    (codec.message_encoded_len
                      (SerfMessage.user_event (new_user_event name payload coalesce s)))
                    bytes
                  ∷ [])
    unfolding send_user_event
    user_event_delivers bytes fit small young room unseen =
        let clock' : (increment s.event_clock).0 ≡ s.event_clock + 1 =
          unfold increment in ground arith in
        let ticked : Serf I A = record s { event_clock = (increment s.event_clock).0 } in
        let stamped : IsStamped message ticked = record {
          small = small;
          at = clock';
          young = young;
          room = room;
          unseen = unseen;
        } in
        let (slot, handled) = handles_stamped message ticked stamped in
        let raw = raw_message MessageType.user_event encoded_len bytes in
        (
          record ticked {
            event_clock = witness (increment s.event_clock).0 s.event_clock;
            event_core = record s.event_core {
              buffer =
                  set s.event_core.buffer (s.event_clock % length s.event_core.buffer) (some slot);
            };
            events = s.events ++ CrateEvent.user message ∷ [];
            event_broadcasts = s.event_broadcasts ++ raw ∷ [];
          },
          sends_sendable bytes fit ∙ rw (handled, send_user_event) refl,
          refl,
          unfold witness in ground (arith, clock'),
          refl,
        )

    -- An error of `user_event` leaves the node as it was, and is given only to an event that is over
    -- a limit or cannot be encoded.
    pub user_event_refused :
        (s' : Serf I A) (x : Error M)
        → user_event codec name payload coalesce s ≡ some (s', err x)
        → (s' ≡ s) × ((bytes : Bytes) → ¬ IsSendable bytes)
    unfolding user_event send_user_event
    user_event_refused s' x h =
        (ground arith, λ bytes fit. ground (arith, sends_sendable bytes fit))
