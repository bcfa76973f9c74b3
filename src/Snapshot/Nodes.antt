-- ===== src/Snapshot/Nodes.antt =====
-- The nodes of a snapshot (core/src/snapshot.rs): sets without repetition, and nodes with a record.
use ruserf.Prelude.{
  ℕ, ◌≤◌, ◌≡◌, refl, false, some, List, [], ◌∷◌, ◌++◌, arith, Eq, length, contains, count, All,
  Bool-cases, inl, inr, IsDistinct, IsDistinct-push, count-append,
}
use ruserf.Types.{Node, node_eq}
use ruserf.Serf.{Codec}
use ruserf.Snapshot.Record.{SnapshotRecord, encode}
use ruserf.Snapshot.Replay.{set_insert, set_remove}
use ruserf.Snapshot.Writer.{encode_all, alive_records}
use ruserf.Snapshot.Read.{NodeCodec, Fits, encode_status_short}

module _ {T : Type 0} ⦃e : Eq T⦄ where
  contains_of_count : (x : T) (xs : List T) → count x xs ≡ 0 → contains x xs ≡ false
  contains_of_count x [] h = refl
  contains_of_count x (y ∷ xs) h = ground (arith, contains_of_count x xs)

  pub set_insert-IsDistinct : (x : T) (xs : List T) → IsDistinct xs → IsDistinct (set_insert x xs)
  set_insert-IsDistinct x xs h = elim (Bool-cases (contains x xs)) [
    | inl there ↦ rw there h
    | inr new ↦ rw new (IsDistinct-push x xs h new)
  ]

  pub set_remove-IsDistinct : (x : T) (xs : List T) → IsDistinct xs → IsDistinct (set_remove x xs)
  set_remove-IsDistinct x xs h z = omega (arith, h z, go xs)
    where
      go : (ys : List T) → count z (set_remove x ys) ≤ count z ys
      go [] = omega arith
      go (y ∷ ys) = ground (arith, go ys)

  pub distinct-new : (x : T) (xs ys : List T) → IsDistinct (xs ++ x ∷ ys) → contains x xs ≡ false
  distinct-new x xs ys h =
      contains_of_count x xs
        (let most = h x in ground (arith, count-append x xs (x ∷ ys), e.beq_iff x x))

module _ {I A : Type 0} (codec : Codec I A) where
  -- A node with a record in the file: at most 59 encoded bytes.
  abbrev pub IsShort : Node I A → Type 0
  IsShort node = (body : List ℕ) × (codec.encode_node node ≡ some body) × (length body ≤ 59)

  -- A record with an encoding.
  abbrev pub Encodes : SnapshotRecord I A → Type 0
  Encodes rec = (bytes : List ℕ) × (encode codec rec ≡ some bytes)

  pub alive-Encodes :
      (laws : NodeCodec codec) (n : Node I A) → IsShort n → Encodes (SnapshotRecord.alive n)
  unfolding encode
  alive-Encodes laws n (body, good, small) = (_, encode_status_short codec laws 0 n body good small)

  pub not_alive-Encodes :
      (laws : NodeCodec codec) (n : Node I A) → IsShort n → Encodes (SnapshotRecord.not_alive n)
  unfolding encode
  not_alive-Encodes laws n (body, good, small) =
      (_, encode_status_short codec laws 1 n body good small)

  pub encode_all-some :
      (recs : List (SnapshotRecord I A))
      → All Encodes recs
      → (bytes : List ℕ) × (encode_all codec recs ≡ some bytes)
  unfolding encode_all
  encode_all-some [] h = ([], refl)
  encode_all-some (rec ∷ recs) ((first, good), h) =
      let (rest, good') = encode_all-some recs h in
      (first ++ rest, rw (good, good', encode_all) refl)

  pub alive_records-Encodes :
      (laws : NodeCodec codec) (ns : List (Node I A)) (after : List (SnapshotRecord I A))
      → All IsShort ns
      → All Encodes after
      → All Encodes (alive_records codec ns after)
  alive_records-Encodes laws [] after h k = k
  alive_records-Encodes laws (n ∷ ns) after h k =
      (alive-Encodes laws n h.0, alive_records-Encodes laws ns after h.1 k)

  pub alive_records-Fits :
      (ns : List (Node I A)) (after : List (SnapshotRecord I A))
      → All Fits after
      → All Fits (alive_records codec ns after)
  alive_records-Fits [] after k = k
  alive_records-Fits (n ∷ ns) after k = (tt, alive_records-Fits ns after k)
