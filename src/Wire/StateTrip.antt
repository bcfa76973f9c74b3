-- ===== src/Wire/StateTrip.antt =====
-- Tags, members and push/pull messages are read back as they were written (types/src).
use ruserf.Prelude.{
  ℕ, ◌≤◌, ◌<◌, ◌≡◌, refl, ap, ◌∙◌, Bool, true, Option, none, some, List, [], ◌∷◌, Eq, nat_eq,
  list_eq, length, keys, IsDistinct, arith, Option-cases, inl, inr,
}
use ruserf.Types.{Tags, UserEvent, MemberStatus, Member, UserEvents, PushPullMessage}
use ruserf.Wire.{read, sum_len}
use ruserf.Wire.Codes.{
  Codes, Codes-cat, Codes-last, Codes-field, Codes-u32, Codes-need, decode_framed-encode_framed,
}
use ruserf.Wire.Lists.{Codes-nested, Codes-many}
use ruserf.Wire.Messages.{
  lamport_time, Formats, byte, user_event_len, announced_check, user_events_len, encode_user_events,
  decode_user_events,
}
use ruserf.Wire.States.{
  collect_set, tags_check, status_byte, read_status, read_version, is_v1, Versions, tags_len,
  encode_tags, decode_tags, member_len, encode_member, decode_member, slot_len, encode_slot,
  decode_slot, push_pull_len, encode_push_pull, decode_push_pull,
}
use ruserf.Wire.Tables.{collect_same, collect_set_same}
use ruserf.Wire.RoundTrip.{AreCodecs, ReadsBack, user_events-ReadsBack}

Codes-status : (s : MemberStatus) → Codes (byte (status_byte s)) 1 read_status s
unfolding read_status
Codes-status MemberStatus.none = record {
  codes = λ z e. let at : 0 ∷ [] ≡ z = cc in rw (← at) (refl, λ rest. refl);
}
Codes-status MemberStatus.alive = record {
  codes = λ z e. let at : 1 ∷ [] ≡ z = cc in rw (← at) (refl, λ rest. refl);
}
Codes-status MemberStatus.leaving = record {
  codes = λ z e. let at : 2 ∷ [] ≡ z = cc in rw (← at) (refl, λ rest. refl);
}
Codes-status MemberStatus.left = record {
  codes = λ z e. let at : 3 ∷ [] ≡ z = cc in rw (← at) (refl, λ rest. refl);
}
Codes-status MemberStatus.failed = record {
  codes = λ z e. let at : 4 ∷ [] ≡ z = cc in rw (← at) (refl, λ rest. refl);
}

Codes-version :
    (known : ℕ → Bool) (b : ℕ) → known b ≡ true → Codes (byte b) 1 (read_version known) b
unfolding read_version
Codes-version known b h = record {
  codes = λ z e. let at : b ∷ [] ≡ z = cc in rw (← at) (refl, λ rest. rw h refl);
}

module _ {I A : Type 0} (f : Formats I A) (c : AreCodecs f) where
  pub tags-ReadsBack :
      (room : ℕ) (tags : Tags)
      → tags_len f tags < 4294967296
      → length tags < 4294967296
      → IsDistinct (keys tags)
      → ReadsBack (encode_tags f room tags) (decode_tags f) (tags_len f tags) tags
  unfolding encode_tags decode_tags
  tags-ReadsBack room tags small few single z rest h =
      let r =
        decode_framed-encode_framed tags_check (tags_len f tags) room z rest
          (Codes-last _ (
            Codes-cat _ (Codes-u32 (length tags) few) (
              Codes-many _ _ _ (tags_len f tags) tags
                (λ e le.
                  Codes-cat _ (Codes-field f.text e.0 c.text)
                    (Codes-last _ (Codes-field f.text e.1 c.text)))
                (omega arith))))
          (omega arith) (omega arith) small h in
      (r.0, r.1 ∙ ap (read (tags_len f tags)) (collect_same [] tags single))

  pub member-ReadsBack :
      (known : Versions) (room : ℕ) (m : Member I A)
      → member_len f m < 4294967296
      → length m.tags < 4294967296
      → IsDistinct (keys m.tags)
      → known.protocol m.memberlist_protocol_version ≡ true
      → known.delegate m.memberlist_delegate_version ≡ true
      → is_v1 m.protocol_version ≡ true
      → is_v1 m.delegate_version ≡ true
      → ReadsBack (encode_member f room m) (decode_member f known) (member_len f m) m
  unfolding encode_member decode_member
  member-ReadsBack known room m small few single p d own_p own_d z rest h =
      decode_framed-encode_framed announced_check (member_len f m) room z rest
        (Codes-cat _ (Codes-field f.node m.node c.node) (
          Codes-cat _
            (Codes-nested _ _ _ _
              (tags-ReadsBack (tags_len f m.tags) m.tags (omega arith) few single))
            (Codes-need (omega arith) (
              Codes-cat _ (Codes-status m.status) (
                Codes-cat _ (Codes-version known.protocol m.memberlist_protocol_version p) (
                  Codes-cat _ (Codes-version known.delegate m.memberlist_delegate_version d) (
                    Codes-cat _ (Codes-version is_v1 m.protocol_version own_p)
                      (Codes-last _ (Codes-version is_v1 m.delegate_version own_d)))))))))
        (omega arith) (omega arith) small h

  events-le : (es : List UserEvent) → length es ≤ sum_len (user_event_len f) es
  events-le [] = omega arith
  events-le (e ∷ es) = omega (arith, events-le es)

  Codes-slot :
      (s : Option UserEvents)
      → slot_len f s ≤ 4294967295
      → Codes (encode_slot f s) (slot_len f s) (decode_slot f) s
  unfolding encode_slot decode_slot
  Codes-slot none le = record {
    codes = λ z e. let at : 0 ∷ [] ≡ z = cc in rw (← at) (refl, λ rest. refl);
  }
  Codes-slot (some e) le =
      let inner =
        Codes-nested (encode_user_events f (user_events_len f e) e) (user_events_len f e)
          (decode_user_events f) e
          (user_events-ReadsBack f c (user_events_len f e) e (omega arith)
            (omega (arith, events-le e.events))) in
      record {
        codes = λ z e'. elim (Option-cases (encode_user_events f (user_events_len f e) e)) [
          | inl fails ↦ absurd (ground (arith, fails))
          | inr (y, written) ↦
              let at : 1 ∷ y ≡ z = cc in
              let (measured, reads) = (Codes-last some inner).codes y written in
              rw (← at) (omega (arith, measured), λ rest. reads rest)
        ];
      }

  slots-le : (ss : List (Option UserEvents)) → length ss ≤ sum_len (slot_len f) ss
  slots-le [] = omega arith
  slots-le (none ∷ ss) = omega (arith, slots-le ss)
  slots-le (some e ∷ ss) = omega (arith, slots-le ss)

  pub push_pull-ReadsBack :
      ⦃q : Eq I⦄ (room : ℕ) (m : PushPullMessage I)
      → push_pull_len f m < 4294967296
      → length m.status_ltimes < 4294967296
      → length m.left_members < 4294967296
      → IsDistinct (keys m.status_ltimes)
      → IsDistinct m.left_members
      → ReadsBack (encode_push_pull f room m) (decode_push_pull f) (push_pull_len f m) m
  unfolding encode_push_pull decode_push_pull
  push_pull-ReadsBack room m small few few_left single single_left z rest h =
      let r =
        decode_framed-encode_framed announced_check (push_pull_len f m) room z rest
          (Codes-cat _ (Codes-field (lamport_time f.varint) m.ltime c.varint) (
            Codes-cat _ (Codes-u32 (length m.status_ltimes) few) (
              Codes-cat _
                (Codes-many _ _ _ 4294967295 m.status_ltimes
                  (λ e le.
                    Codes-cat _ (Codes-field f.id e.0 c.id)
                      (Codes-last _ (Codes-field (lamport_time f.varint) e.1 c.varint)))
                  (omega arith))
                (Codes-cat _ (Codes-u32 (length m.left_members) few_left) (
                  Codes-cat _
                    (Codes-many _ _ _ 4294967295 m.left_members (λ v le. Codes-field f.id v c.id)
                      (omega arith))
                    (Codes-cat _ (Codes-field (lamport_time f.varint) m.event_ltime c.varint) (
                      Codes-cat _ (Codes-u32 (length m.events) (omega (arith, slots-le m.events))) (
                        Codes-cat _ (Codes-many _ _ _ 4294967295 m.events Codes-slot (omega arith))
                          (Codes-last _
                            (Codes-field (lamport_time f.varint) m.query_ltime c.varint))))))))))
          (omega arith) (omega arith) small h in
      (
        r.0,
        r.1
            ∙ ap
                (λ t.
                  read (push_pull_len f m)
                    (record m { status_ltimes = t; left_members = collect_set [] m.left_members }))
                (collect_same [] m.status_ltimes single)
            ∙ ap (λ l. read (push_pull_len f m) (record m { left_members = l }))
                (collect_set_same [] m.left_members single_left),
      )
