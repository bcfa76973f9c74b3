-- ===== src/Queries/Respond/Once.antt =====
-- The answer to a query is accepted once, in time, and goes to the sender of the query.
use ruserf.Prelude.{
  sym, ap, ◌∙◌, ℕ, ◌-◌, ◌+◌, ◌≡◌, ◌≢◌, ◌≤◌, refl, Bool, Option, none, some, List, [], ◌∷◌, ◌++◌,
  map, Eq, ltb, length, arith, Bool-cases, Option-cases, ◌==◌, nat_eq, inl, inr,
}
use mathlib.Core.List.{append-nil, append_assoc}
use ruserf.Types.{Bytes, MessageType, QueryResponseMessage, QueryEvent, Member}
use ruserf.Serf.{Serf, SerfMessage, Codec}
use ruserf.Queries.Relay.{
  relay_response, relay_to, relay_candidates, relayed, relayed_len, random_members,
}
use ruserf.Api.Broadcast.{raw_message}
use ruserf.Queries.Respond.{responded, respond_with_message_and_response, response_of, respond}

module _ {I A : Type 0} ⦃e : Eq I⦄ (codec : Codec I A) (draws : ℕ → ℕ) where
  relay_to-sends :
      (factor : ℕ) (r : QueryResponseMessage I A) (s t : Serf I A) (cs : List (Member I A))
      → relay_to codec draws factor r.from r s cs ≡ some t
      → (more : List (A × Bytes)) × (some (record s { sends = s.sends ++ more }) ≡ some t)
  unfolding relay_to
  relay_to-sends factor r s t [] h = ([], rw (append-nil s.sends) h)
  relay_to-sends factor r s t (c ∷ cs) h =
      elim (Bool-cases (ltb s.opts.query_response_size_limit (relayed_len codec r.from r))) [
        | inl big ↦ cc (rw (big, relay_to) at h)
        | inr fits ↦ elim (Option-cases (relayed codec r.from r)) [
          | inl fails ↦ cc (rw (fits, fails, relay_to) at h)
          | inr (raw, made) ↦ (
            map (λ m. (m.node.address, raw)) (random_members draws factor (c ∷ cs)),
            rw (fits, made, relay_to) at h,
          )
        ]
      ]

  relay_response-sends :
      (factor : ℕ) (r : QueryResponseMessage I A) (s t : Serf I A)
      → relay_response codec draws factor r.from r s ≡ some t
      → (more : List (A × Bytes)) × (some (record s { sends = s.sends ++ more }) ≡ some t)
  unfolding relay_response
  relay_response-sends factor r s t h = elim (Bool-cases (factor == 0)) [
    | inl off ↦ ([], rw (append-nil s.sends) (rw (off, relay_response) at h))
    | inr on ↦ elim (Bool-cases (ltb (length s.members.states) (factor + 1))) [
      | inl tiny ↦ ([], rw (append-nil s.sends) (rw (on, tiny, relay_response) at h))
      | inr wide ↦
          relay_to-sends factor r s t (relay_candidates s) (rw (on, wide, relay_response) at h)
    ]
  ]

  -- What `respond_with_message_and_response` did if it accepted the answer.
  record Accepted (ev : QueryEvent I A) (raw : Bytes) (start now : ℕ) (s t : Serf I A)
      (span : Option ℕ) : Type 0 where
    in_time : now - start ≤ ev.query_timeout
    more : List (A × Bytes)
    sent : t ≡ record s { sends = s.sends ++ (ev.from.address, raw) ∷ more }
    closed : span ≡ none

  abbrev state_or : Serf I A → Option (Serf I A) → Serf I A
  state_or s none = s
  state_or s (some t) = t

  respond_with-Accepted :
      (start now : ℕ) (can_send : Bool) (ev : QueryEvent I A) (raw : Bytes)
      (resp : QueryResponseMessage I A) (s : Serf I A) (span : Option ℕ) (t : Serf I A)
      → respond_with_message_and_response codec draws now can_send ev raw resp (some start, s)
        ≡ ((span, t), responded)
      → Accepted ev raw start now s t span
  unfolding respond_with_message_and_response
  respond_with-Accepted start now can_send ev raw resp s span t h =
      elim (Bool-cases (ltb s.opts.query_response_size_limit (length raw))) [
        | inl big ↦ cc (rw (big, respond_with_message_and_response) at h)
        | inr fits ↦ elim (Bool-cases (ltb ev.query_timeout (now - start))) [
          | inl late ↦ cc (rw (fits, late, respond_with_message_and_response) at h)
          | inr timely ↦ elim (Bool-cases can_send) [
            | inr fails ↦ cc (rw (fits, timely, fails, respond_with_message_and_response) at h)
            | inl sends ↦
                let direct : Serf I A = record s {
                  sends = s.sends ++ (ev.from.address, raw) ∷ [];
                } in
                elim (Option-cases
                  (relay_response codec draws ev.relay_factor resp.from resp direct)) [
                    | inl fails ↦
                        cc (rw (fits, timely, sends, fails, respond_with_message_and_response) at h)
                    | inr (relayed, done) ↦
                        let on : ((none, relayed), responded) ≡ ((span, t), responded) =
                          rw (fits, timely, sends, done, respond_with_message_and_response) at h in
                        let (more, at) =
                          relay_response-sends ev.relay_factor resp direct relayed done in
                        let d : A × Bytes = (ev.from.address, raw) in
                        let same : relayed ≡ t = ap (λ x. x.0.1) on in
                        let first : record s { sends = s.sends ++ d ∷ more }
                            ≡ record direct { sends = direct.sends ++ more } =
                          ap (λ l. record s { sends = l })
                            (sym (append_assoc s.sends (d ∷ []) more)) in
                        record {
                          in_time = ground arith;
                          more = more;
                          sent = sym (first ∙ ap (state_or s) at ∙ same);
                          closed = sym (ap (λ x. x.0.0) on);
                        }
                  ]
          ]
        ]
      ]

  answered_refused :
      (later : ℕ) (can_send : Bool) (ev : QueryEvent I A) (payload : Bytes) (s : Serf I A)
      → ((respond codec draws later can_send ev payload (none, s)).0 ≡ (none, s))
        × ((respond codec draws later can_send ev payload (none, s)).1 ≢ responded)
  unfolding respond respond_with_message_and_response
  answered_refused later can_send ev payload s =
      let resp = response_of ev payload s in
      let m : SerfMessage I A = SerfMessage.query_response resp in
      elim (Option-cases (codec.encode_message m)) [
        | inl fails ↦ (rw (fails, respond) refl, λ h. cc (rw (fails, respond) at h))
        | inr (bytes, made) ↦
            let raw = raw_message MessageType.query_response (codec.message_encoded_len m) bytes in
            elim (Bool-cases (ltb s.opts.query_response_size_limit (length raw))) [
              | inl big ↦ (
                rw (made, big, respond, respond_with_message_and_response) refl,
                λ h. cc (rw (made, big, respond, respond_with_message_and_response) at h),
              )
              | inr fits ↦ (
                rw (made, fits, respond, respond_with_message_and_response) refl,
                λ h. cc (rw (made, fits, respond, respond_with_message_and_response) at h),
              )
            ]
      ]

  -- If an answer was accepted, it was given within the timeout of the query, and the type byte and the
  -- encoding of the response with its payload were sent to the sender of the query, with any relays
  -- after them; and from then on no further answer, at whatever time and with whatever
  -- payload, is accepted or changes anything.
  pub respond_once :
      (start now later : ℕ) (can_send can_send' : Bool) (ev : QueryEvent I A)
      (payload payload' : Bytes) (s : Serf I A) (span : Option ℕ) (t : Serf I A)
      → respond codec draws now can_send ev payload (some start, s) ≡ ((span, t), responded)
      → (now - start ≤ ev.query_timeout)
        × ((bytes : Bytes) × (more : List (A × Bytes)) × (codec.encode_message
                (SerfMessage.query_response (response_of ev payload s))
              ≡ some bytes)
            × (t ≡ record s {
              sends =
                  s.sends
                  ++ (
                    ev.from.address,
                    raw_message MessageType.query_response
                        (codec.message_encoded_len
                          (SerfMessage.query_response (response_of ev payload s)))
                        bytes,
                  )
                    ∷ more;
            }))
        × (span ≡ none)
        × ((respond codec draws later can_send' ev payload' (span, t)).0 ≡ (span, t))
        × ((respond codec draws later can_send' ev payload' (span, t)).1 ≢ responded)
  unfolding respond
  respond_once start now later can_send can_send' ev payload payload' s span t h =
      let resp = response_of ev payload s in
      let m : SerfMessage I A = SerfMessage.query_response resp in
      elim (Option-cases (codec.encode_message m)) [
        | inl fails ↦ cc (rw (fails, respond) at h)
        | inr (bytes, made) ↦
            let raw = raw_message MessageType.query_response (codec.message_encoded_len m) bytes in
            let at = rw (made, respond) at h in
            let done = respond_with-Accepted start now can_send ev raw resp s span t at in
            let refused = answered_refused later can_send' ev payload' t in
            (
              done.in_time,
              (bytes, done.more, made, done.sent),
              done.closed,
              rw done.closed refused.0,
              rw done.closed refused.1,
            )
      ]
