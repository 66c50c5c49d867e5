-- ===== src/Persist/NodeMap.antt =====
-- The map that reading a graph snapshot builds, node by node.
use native.Mathlib.Nat.{add-zero, zero-add}
use vexdb.Prelude.{
  ℕ, suc, ◌+◌, ◌<◌, true, false, some, List, [], ◌∷◌, ◌≡◌, refl, arith, length, get_elem?,
  Bool-cases, Option-cases, inl, inr, ◌==◌,
}
use vexdb.Platform.{Platform}
use vexdb.Error.{VectorId}
use vexdb.Collections.Dict
use vexdb.Collections.Dict.{nat_eq}
use vexdb.Collections.Vec.{lt_of_get_elem?}
use vexdb.Hnsw.{Node}
use vexdb.Hnsw.Filed.{IsFiled}
use vexdb.Persist.Read.{map_node}
use vexdb.Persist.NodeValues.{mapped}

module _ ⦃p : Platform⦄ (nodes : List Node) (names : List (VectorId × ℕ))
    (w : IsFiled (length nodes) nodes names) where
  -- A live node takes its id; no live node before it has it.
  insert-IsFiled :
      (pos : ℕ) (node : Node) (m : List (VectorId × ℕ))
      → get_elem? nodes pos ≡ some node
      → node.deleted ≡ false
      → IsFiled pos nodes m
      → IsFiled (suc pos) nodes (Dict.insert m node.id pos)
  insert-IsFiled pos node m at live f = record {
    found = λ id q h. elim (Bool-cases (node.id == id)) [
      | inl e ↦
          (node, ground (arith, h, Dict.get-insert m node.id pos id, e, at), ground (arith, e))
      | inr ne ↦ f.found id q (ground (arith, h, Dict.get-insert m node.id pos id, ne))
    ];
    live_filed = λ n other low there alive. elim (Bool-cases (n == pos)) [
      | inl e ↦ ground (arith, e, at, there, Dict.get-insert m node.id pos other.id)
      | inr ne ↦
          let old = f.live_filed n other (ground (arith, ne, low)) there alive in
          let one = w.live_filed n other (lt_of_get_elem? nodes n there) there alive in
          let two = w.live_filed pos node (lt_of_get_elem? nodes pos at) at live in
          ground (arith, old, one, two, ne, Dict.get-insert m node.id pos other.id)
    ];
    all_filed = λ n other low there. elim (Bool-cases (node.id == other.id)) [
      | inl e ↦ (pos, ground (arith, e, Dict.get-insert m node.id pos other.id))
      | inr ne ↦
          let before : n < pos = ground (arith, ne, at, there, low) in
          let (q, known) = f.all_filed n other before there in
          (q, ground (arith, ne, known, Dict.get-insert m node.id pos other.id))
    ];
  }

  -- A tombstone takes its id only where no node before it has it.
  or_insert-IsFiled :
      (pos : ℕ) (node : Node) (m : List (VectorId × ℕ))
      → get_elem? nodes pos ≡ some node
      → node.deleted ≡ true
      → IsFiled pos nodes m
      → IsFiled (suc pos) nodes (Dict.or_insert m node.id pos)
  unfolding Dict.or_insert
  or_insert-IsFiled pos node m at dead f = elim (Option-cases (Dict.get m node.id)) [
    | inr (q, known) ↦
        let same : Dict.or_insert m node.id pos ≡ m = ground (arith, known) in
        rw same (record {
          found = f.found;
          live_filed = λ n other low there alive.
              f.live_filed n other (ground (arith, low, at, there, dead, alive)) there alive;
          all_filed = λ n other low there. elim (Bool-cases (n == pos)) [
            | inl e ↦ (q, ground (arith, e, at, there, known))
            | inr ne ↦ f.all_filed n other (ground (arith, ne, low)) there
          ];
        })
    | inl free ↦
        let same : Dict.or_insert m node.id pos ≡ Dict.insert m node.id pos =
          ground (arith, free) in
        rw same (record {
          found = λ id q h. elim (Bool-cases (node.id == id)) [
            | inl e ↦ (
              node,
              ground (arith, h, Dict.get-insert m node.id pos id, e, at),
              ground (arith, e),
            )
            | inr ne ↦ f.found id q (ground (arith, h, Dict.get-insert m node.id pos id, ne))
          ];
          live_filed = λ n other low there alive.
              let before : n < pos = ground (arith, low, at, there, dead, alive) in
              let old = f.live_filed n other before there alive in
              ground (arith, old, free, Dict.get-insert m node.id pos other.id);
          all_filed = λ n other low there. elim (Bool-cases (node.id == other.id)) [
            | inl e ↦ (pos, ground (arith, e, Dict.get-insert m node.id pos other.id))
            | inr ne ↦
                let before : n < pos = ground (arith, ne, at, there, low) in
                let (q, known) = f.all_filed n other before there in
                (q, ground (arith, ne, known, Dict.get-insert m node.id pos other.id))
          ];
        })
  ]

  map_node-IsFiled :
      (pos : ℕ) (node : Node) (m : List (VectorId × ℕ))
      → get_elem? nodes pos ≡ some node
      → IsFiled pos nodes m
      → IsFiled (suc pos) nodes (map_node node pos m)
  map_node-IsFiled pos node m at f = elim (Bool-cases node.deleted) [
    | inl dead ↦ rw dead (or_insert-IsFiled pos node m at dead f)
    | inr live ↦ rw live (insert-IsFiled pos node m at live f)
  ]

  mapped-IsFiled :
      (rest : List Node) (pos : ℕ) (m : List (VectorId × ℕ))
      → ((i : ℕ) → get_elem? nodes (pos + i) ≡ get_elem? rest i)
      → IsFiled pos nodes m
      → IsFiled (pos + length rest) nodes (mapped pos rest m)
  mapped-IsFiled [] pos m suffix f = rw add-zero f
  mapped-IsFiled (node ∷ rest) pos m suffix f =
      let at : get_elem? nodes pos ≡ some node = rw add-zero at (suffix 0) in
      let step : pos + suc (length rest) ≡ suc pos + length rest = omega arith in
      rw step (
        mapped-IsFiled rest (suc pos) (map_node node pos m)
          (λ i. let next : suc pos + i ≡ pos + suc i = omega arith in rw next (suffix (suc i)))
          (map_node-IsFiled pos node m at f))

  start-IsFiled : IsFiled 0 nodes []
  unfolding Dict.get
  start-IsFiled = record {
    found = λ id pos h. cc;
    live_filed = λ n node low. absurd (omega (arith, low));
    all_filed = λ n node low. absurd (omega (arith, low));
  }

  -- The map of the whole arena.
  pub read_map-IsFiled : IsFiled (length nodes) nodes (mapped 0 nodes [])
  read_map-IsFiled =
      rw (zero-add (length nodes)) at
        (mapped-IsFiled nodes 0 [] (λ i. rw (zero-add i) refl) start-IsFiled)
