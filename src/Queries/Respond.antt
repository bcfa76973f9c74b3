-- ===== src/Queries/Respond.antt =====
-- `QueryContext::respond` of core/src/event.rs: the answer to a query that was received. `span` is the
-- time at which the query came in, until it is answered. The present time, whether memberlist could
-- send, and the random numbers of the relay are arguments.
pub mod Once
use ruserf.Prelude.{
  ℕ, ◌-◌, ◌+◌, Bool, false, Option, none, some, [], ◌∷◌, ◌++◌, Eq, ltb, length, if◌then◌else◌,
}
use ruserf.Types.{Bytes, MessageType, QueryResponseMessage, QueryEvent}
use ruserf.Serf.{Serf, SerfMessage, Codec}
use ruserf.Queries.Relay.{relay_response, relayed}
use ruserf.Api.Broadcast.{raw_message}

-- `Ok`, or the error of `respond`.
pub data Responded : Type 0 where
  responded too_large timed_out already_responded send_failed relay_failed transform_failed :
      Responded

abbrev pub response_of :
    {I A : Type 0} → QueryEvent I A → Bytes → Serf I A → QueryResponseMessage I A
response_of ev payload s = record {
  ltime = ev.ltime;
  id = ev.id;
  from = s.local_node;
  flags = record { ack = false; no_broadcast = false };
  payload = payload;
}

module _ {I A : Type 0} ⦃e : Eq I⦄ (codec : Codec I A) (draws : ℕ → ℕ) where
  unfoldable pub respond_with_message_and_response :
      (now : ℕ)
      → (can_send : Bool) → QueryEvent I A
      → Bytes
      → QueryResponseMessage I A
      → Option ℕ × Serf I A
      → (Option ℕ × Serf I A) × Responded
  unfolding relay_response
  respond_with_message_and_response now can_send ev raw resp (span, s) =
      if ltb s.opts.query_response_size_limit (length raw)
      then ((span, s), too_large)
      else elim span [
        | none ↦ ((none, s), already_responded)
        | some start ↦
            let direct : Serf I A = record s { sends = s.sends ++ (ev.from.address, raw) ∷ [] } in
            if ltb ev.query_timeout (now - start)
            then ((some start, s), timed_out)
            else if can_send
            then (elim (relay_response codec draws ev.relay_factor resp.from resp direct) [
              | none ↦ ((some start, direct), relay_failed)
              | some relayed ↦ ((none, relayed), responded)
            ])
            else ((some start, s), send_failed)
      ]

  unfoldable pub respond :
      (now : ℕ)
      → (can_send : Bool) → QueryEvent I A
      → Bytes
      → Option ℕ × Serf I A
      → (Option ℕ × Serf I A) × Responded
  unfolding respond_with_message_and_response
  respond now can_send ev payload (span, s) =
      let resp = response_of ev payload s in
      let m : SerfMessage I A = SerfMessage.query_response resp in
      elim (codec.encode_message m) [
        | none ↦ ((span, s), transform_failed)
        | some bytes ↦
            respond_with_message_and_response now can_send ev
              (raw_message MessageType.query_response (codec.message_encoded_len m) bytes) resp
              (span, s)
      ]
