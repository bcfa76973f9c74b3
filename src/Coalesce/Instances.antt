-- ===== src/Coalesce/Instances.antt =====
-- The two coalescers as what drives `coalesce_loop` (the `impl Coalescer` of
-- core/src/coalesce/user.rs and member.rs).
use ruserf.Prelude.{
  ℕ, true, some, List, [], ◌∷◌, ◌++◌, ◌≡◌, refl, Eq, ◌==◌, map, All, All-append, lookup, insert,
  arith, inl, inr, Option-cases, Bool-cases, ltb, nat_eq, list_eq,
}
use ruserf.Types.{UserEventMessage, CrateEvent, MemberEventType, Member, node_eq}
use ruserf.Coalesce.{Coalescer}
use ruserf.Coalesce.User as User
use ruserf.Coalesce.User.{UserEventCoalescer, LatestUserEvents, drained, coalesce_user}
use ruserf.Coalesce.Member as Member
use ruserf.Coalesce.Member.{MemberEventCoalescer, flush_loop, freeze}

-- Only events that nodes may coalesce are held.
abbrev pub AreCc : List UserEventMessage → Type 0
AreCc = All (λ e. e.cc ≡ true)

abbrev pub HoldsCc : UserEventCoalescer → Type 0
HoldsCc = All (λ s. AreCc s.1.events)

cc-insert :
    (name : List ℕ) (latest : LatestUserEvents) (c : UserEventCoalescer)
    → HoldsCc c
    → AreCc latest.events
    → HoldsCc (insert name latest c)
unfolding insert
cc-insert name latest [] h new = (new, tt)
cc-insert name latest ((own, old) ∷ c) h new = elim (Bool-cases (own == name)) [
  | inl same ↦ rw same (new, h.1)
  | inr other ↦ rw other (h.0, cc-insert name latest c h.1 new)
]

cc-lookup :
    (name : List ℕ) (latest : LatestUserEvents) (c : UserEventCoalescer)
    → HoldsCc c
    → lookup name c ≡ some latest
    → AreCc latest.events
unfolding lookup
cc-lookup name latest [] h found = absurd (ground arith)
cc-lookup name latest ((own, old) ∷ c) h found = elim (Bool-cases (own == name)) [
  | inl same ↦ let this : old ≡ latest = ground (arith, found, same) in rw (← this) h.0
  | inr other ↦ cc-lookup name latest c h.1 (ground (arith, found, other))
]

cc-coalesce_user :
    (e : UserEventMessage) (c : UserEventCoalescer)
    → e.cc ≡ true
    → HoldsCc c
    → HoldsCc (coalesce_user e c)
unfolding coalesce_user
cc-coalesce_user e c own h = elim (Option-cases (lookup e.name c)) [
  | inl absent ↦ rw (absent, coalesce_user) (cc-insert e.name _ c h (own, tt))
  | inr (latest, found) ↦
      let old = cc-lookup e.name latest c h found in
      rw (found, coalesce_user)
        (elim (Bool-cases (ltb latest.ltime e.ltime)) [
          | inl later ↦ rw later (cc-insert e.name _ c h (own, tt))
          | inr not_later ↦ rw not_later (elim (Bool-cases (latest.ltime == e.ltime)) [
            | inl same ↦ rw same (
                cc-insert e.name (record latest { events = latest.events ++ e ∷ [] }) c h
                  (All-append (λ m. m.cc ≡ true) latest.events (e ∷ []) old (own, tt)))
            | inr older ↦ rw older h
          ])
        ])
]

pub cc-drained : (c : UserEventCoalescer) → HoldsCc c → AreCc (drained c)
unfolding drained
cc-drained [] h = tt
cc-drained ((name, latest) ∷ c) h =
    All-append (λ e. e.cc ≡ true) latest.events (drained c) h.0 (cc-drained c h.1)

pub All-user :
    (I A : Type 0) (es : List UserEventMessage)
    → AreCc es
    → All (λ (e : CrateEvent I A). User.handle e ≡ true) (map CrateEvent.user es)
unfolding User.handle
All-user I A [] h = tt
All-user I A (e ∷ es) h = (h.0, All-user I A es h.1)

module _ {I A : Type 0} where
  pub user-coalesce-Holds :
      (e : CrateEvent I A) (c : UserEventCoalescer)
      → User.handle e ≡ true
      → HoldsCc c
      → (next : UserEventCoalescer) × (User.coalesce e c ≡ some next) × HoldsCc next
  unfolding User.handle User.coalesce
  user-coalesce-Holds (CrateEvent.user e) c handled h =
      (coalesce_user e c, refl, cc-coalesce_user e c handled h)
  user-coalesce-Holds (CrateEvent.member e) c handled h = absurd (ground arith)
  user-coalesce-Holds (CrateEvent.query e) c handled h = absurd (ground arith)
  user-coalesce-Holds (CrateEvent.internal_query k e) c handled h = absurd (ground arith)

  unfoldable pub user_event_coalescer : Coalescer UserEventCoalescer (CrateEvent I A)
  unfolding User.flush
  user_event_coalescer = record {
    handle = User.handle;
    coalesce = User.coalesce;
    flush = User.flush;
    Holds = HoldsCc;
    coalesce-Holds = user-coalesce-Holds;
    flush-Holds = λ c h. (
      map CrateEvent.user (drained c),
      [],
      λ out. refl,
      All-user I A (drained c) (cc-drained c h),
      tt,
    );
  }

module _ {I A : Type 0} ⦃i : Eq I⦄ ⦃a : Eq A⦄ where
  pub All-freeze :
      (groups : List (MemberEventType × List (Member I A)))
      → All (λ (e : CrateEvent I A). Member.handle e ≡ true) (map freeze groups)
  unfolding Member.handle
  All-freeze [] = tt
  All-freeze (g ∷ groups) = (refl, All-freeze groups)

  pub member-coalesce-Holds :
      (e : CrateEvent I A) (c : MemberEventCoalescer I A)
      → Member.handle e ≡ true
      → Unit {0}
      → (next : MemberEventCoalescer I A) × (Member.coalesce e c ≡ some next) × Unit {0}
  unfolding Member.handle Member.coalesce
  member-coalesce-Holds (CrateEvent.member e) c handled h = (_, refl, tt)
  member-coalesce-Holds (CrateEvent.user e) c handled h = absurd (ground arith)
  member-coalesce-Holds (CrateEvent.query e) c handled h = absurd (ground arith)
  member-coalesce-Holds (CrateEvent.internal_query k e) c handled h = absurd (ground arith)

  unfoldable pub member_event_coalescer : Coalescer (MemberEventCoalescer I A) (CrateEvent I A)
  unfolding Member.flush
  member_event_coalescer = record {
    handle = Member.handle;
    coalesce = Member.coalesce;
    flush = Member.flush;
    Holds = λ c. Unit;
    coalesce-Holds = member-coalesce-Holds;
    flush-Holds = λ c h. (_, _, λ out. refl, All-freeze _, tt);
  }
