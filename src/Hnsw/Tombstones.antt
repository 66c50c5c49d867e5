-- ===== src/Hnsw/Tombstones.antt =====
-- `remove`, which leaves a tombstone.
use Prim.Native.Nat.{◌-◌}
use vexdb.Prelude.{
  ℕ, zero, suc, ◌+◌, Bool, true, false, some, List, [], ◌∷◌, ◌≡◌, ◌≢◌, ◌∙◌, refl, arith, get_elem?,
  set, get_elem?-set_self, get_elem?-set_ne, Bool-cases, Option-cases, inl, inr, if◌then◌else◌,
  ◌==◌,
}
use vexdb.Platform.{Platform}
use vexdb.Error.{VectorId, ok}
use vexdb.Collections.Dict
use vexdb.Collections.Dict.{nat_eq}
use vexdb.Collections.Vec.{lt_of_get_elem?}
use vexdb.Hnsw.{HnswIndex, Node, node_at, contains}
use vexdb.Hnsw.Insert.{remove}

module _ ⦃p : Platform⦄ where
  unfoldable pub live_nodes : List Node → ℕ
  live_nodes [] = 0
  live_nodes (n ∷ ns) = let rest = live_nodes ns in if n.deleted then rest else suc rest

  -- The map points at nodes of the id, and the count is right.
  pub record IsMapped (idx : HnswIndex) : Type 0 where
    pub found :
        (id : VectorId) (pos : ℕ)
        → Dict.get idx.id_to_pos id ≡ some pos
        → (node : Node) × (get_elem? idx.nodes pos ≡ some node) × (node.id ≡ id)
    pub counted : idx.live_count ≡ live_nodes idx.nodes

  pub live_nodes-set :
      (ns : List Node) (pos : ℕ) (node : Node)
      → get_elem? ns pos ≡ some node
      → node.deleted ≡ false
      → live_nodes (set ns pos (record node { deleted = true })) + 1 ≡ live_nodes ns
  unfolding live_nodes
  live_nodes-set [] pos node at alive = cc
  live_nodes-set (n ∷ ns) zero node at alive =
      let same : n ≡ node = cc in rw (same, alive) (omega arith)
  live_nodes-set (n ∷ ns) (suc pos) node at alive =
      ground (arith, live_nodes-set ns pos node at alive)

  -- The index with a tombstone at `pos`.
  abbrev buried : HnswIndex → ℕ → Node → HnswIndex
  buried idx pos node = record idx {
    nodes = set idx.nodes pos (record node { deleted = true });
    live_count = idx.live_count - 1;
  }

  module _ (idx : HnswIndex) (w : IsMapped idx) (id : VectorId) (pos : ℕ)
      (here : Dict.get idx.id_to_pos id ≡ some pos) (node : Node)
      (at : get_elem? idx.nodes pos ≡ some node) (same : node.id ≡ id)
      (alive : node.deleted ≡ false) where
    buried_here : get_elem? (buried idx pos node).nodes pos ≡ some (record node { deleted = true })
    buried_here =
        get_elem?-set_self idx.nodes pos (record node { deleted = true })
          (lt_of_get_elem? idx.nodes pos at)

    buried_found :
        (j : VectorId) (q : ℕ)
        → Dict.get idx.id_to_pos j ≡ some q
        → (other : Node) × (get_elem? (buried idx pos node).nodes q ≡ some other) × (other.id ≡ j)
    buried_found j q h =
        let (other, at_q, id_q) = w.found j q h in
        elim (Bool-cases (pos == q)) [
          | inl e ↦ (
            record node { deleted = true },
            ground (arith, buried_here),
            ground (arith, at, at_q, id_q),
          )
          | inr ne ↦
              let away : pos ≢ q = ground arith in
              (other, get_elem?-set_ne idx.nodes (record node { deleted = true }) away ∙ at_q, id_q)
        ]

    buried-IsMapped : IsMapped (buried idx pos node)
    buried-IsMapped = record {
      found = buried_found;
      counted = omega (arith, live_nodes-set idx.nodes pos node at alive, w.counted);
    }

    contains-buried_self : contains (buried idx pos node) id ≡ ok false
    unfolding contains node_at
    contains-buried_self = ground (arith, here, buried_here)

    contains-buried_ne : (j : VectorId) → j ≢ id → contains (buried idx pos node) j ≡ contains idx j
    unfolding contains node_at
    contains-buried_ne j ne = elim (Option-cases (Dict.get idx.id_to_pos j)) [
      | inl absent ↦ ground (arith, absent)
      | inr (q, h) ↦
          let (other, at_q, id_q) = w.found j q h in
          let away : pos ≢ q = ground (arith, at, at_q, id_q) in
          let kept = get_elem?-set_ne idx.nodes (record node { deleted = true }) away in
          ground (arith, h, at_q, kept)
    ]

  -- The index after a removal of `id`.
  pub record IsRemoved (idx : HnswIndex) (id : VectorId) (idx' : HnswIndex) : Type 0 where
    pub mapped : IsMapped idx'
    pub gone : contains idx' id ≡ ok false
    pub rest : (j : VectorId) → j ≢ id → contains idx' j ≡ contains idx j

  -- A removal from a graph index whose map and live count are right never fails. It reports whether the id
  -- was live, and after it the map and the count are right, the id is not live, and every other id
  -- is live exactly when it was.
  pub remove-IsRemoved :
      (idx : HnswIndex)
      → IsMapped idx
      → (id : VectorId)
      → (idx' : HnswIndex) × (removed : Bool) × (remove idx id ≡ ok (idx', removed))
        × (contains idx id ≡ ok removed)
        × IsRemoved idx id idx'
  unfolding remove contains node_at
  remove-IsRemoved idx w id = elim (Option-cases (Dict.get idx.id_to_pos id)) [
    | inl absent ↦ (
      idx,
      false,
      ground (arith, absent),
      ground (arith, absent),
      record { mapped = w; gone = ground (arith, absent); rest = λ j ne. refl },
    )
    | inr (pos, here) ↦
        let (node, at, same) = w.found id pos here in
        elim (Bool-cases node.deleted) [
          | inl dead ↦ (
            idx,
            false,
            ground (arith, here, at, dead),
            ground (arith, here, at, dead),
            record { mapped = w; gone = ground (arith, here, at, dead); rest = λ j ne. refl },
          )
          | inr alive ↦
              let positive : idx.live_count ≢ 0 =
                omega (arith, live_nodes-set idx.nodes pos node at alive, w.counted) in
              (
                buried idx pos node,
                true,
                ground (arith, here, at, alive, positive),
                ground (arith, here, at, alive),
                record {
                  mapped = buried-IsMapped idx w id pos here node at same alive;
                  gone = contains-buried_self idx w id pos here node at same alive;
                  rest = contains-buried_ne idx w id pos here node at same alive;
                },
              )
        ]
  ]
