-- ===== src/Hnsw/Filed.antt =====
-- The map from ids to nodes of a graph index, and what the lookups make of it.
use vexdb.Prelude.{
  ℕ, ◌<◌, true, false, none, some, List, ◌≡◌, arith, length, get_elem?, Bool-cases, Option-cases,
  inl, inr,
}
use vexdb.Platform.{Platform}
use vexdb.Error.{VectorId}
use vexdb.Collections.Dict
use vexdb.Collections.Dict.{nat_eq}
use vexdb.Collections.Vec.{lt_of_get_elem?}
use vexdb.Hnsw.{HnswIndex, Node, node_at, contains, vector, payload}
use vexdb.Hnsw.Rewire.{SameData, SameData-refl}

module _ ⦃p : Platform⦄ where
  -- The two indexes say the same of an id.
  pub record SaysSame (idx' idx : HnswIndex) (j : VectorId) : Type 0 where
    pub same_contains : contains idx' j ≡ contains idx j
    pub same_vector : vector idx' j ≡ vector idx j
    pub same_payload : payload idx' j ≡ payload idx j

  -- Ids that lead to nodes with the same data.
  pub node-SaysSame :
      (idx idx' : HnswIndex) (j : VectorId) (n : ℕ) (node copy : Node)
      → Dict.get idx.id_to_pos j ≡ some n
      → Dict.get idx'.id_to_pos j ≡ some n
      → get_elem? idx.nodes n ≡ some node
      → get_elem? idx'.nodes n ≡ some copy
      → SameData copy node
      → SaysSame idx' idx j
  unfolding contains vector payload node_at
  node-SaysSame idx idx' j n node copy f f' at at' d = record {
    same_contains = ground (arith, f, f', at, at', d.same_deleted);
    same_vector = ground (arith, f, f', at, at', d.same_deleted, d.same_vector);
    same_payload = ground (arith, f, f', at, at', d.same_deleted, d.same_payload);
  }

  pub none-SaysSame :
      (idx idx' : HnswIndex) (j : VectorId)
      → Dict.get idx.id_to_pos j ≡ none
      → Dict.get idx'.id_to_pos j ≡ none
      → SaysSame idx' idx j
  unfolding contains vector payload
  none-SaysSame idx idx' j f f' = record {
    same_contains = ground (arith, f, f');
    same_vector = ground (arith, f, f');
    same_payload = ground (arith, f, f');
  }

  -- The map knows the ids of the first `count` nodes: each leads to a node of the id, and to the live one
  -- where there is one.
  pub record IsFiled (count : ℕ) (nodes : List Node) (m : List (VectorId × ℕ)) : Type 0 where
    pub found :
        (id : VectorId) (pos : ℕ)
        → Dict.get m id ≡ some pos
        → (node : Node) × (get_elem? nodes pos ≡ some node) × (node.id ≡ id)
    pub live_filed :
        (n : ℕ) (node : Node)
        → n < count
        → get_elem? nodes n ≡ some node
        → node.deleted ≡ false
        → Dict.get m node.id ≡ some n
    pub all_filed :
        (n : ℕ) (node : Node)
        → n < count
        → get_elem? nodes n ≡ some node
        → (pos : ℕ) × (Dict.get m node.id ≡ some pos)

  dead-SaysSame :
      (idx idx' : HnswIndex) (j : VectorId) (a b : ℕ) (node other : Node)
      → idx'.nodes ≡ idx.nodes
      → Dict.get idx.id_to_pos j ≡ some a
      → Dict.get idx'.id_to_pos j ≡ some b
      → get_elem? idx.nodes a ≡ some node
      → get_elem? idx.nodes b ≡ some other
      → node.deleted ≡ true
      → other.deleted ≡ true
      → SaysSame idx' idx j
  unfolding contains vector payload node_at
  dead-SaysSame idx idx' j a b node other e f f' at at' d d' = record {
    same_contains = ground (arith, e, f, f', at, at', d, d');
    same_vector = ground (arith, e, f, f', at, at', d, d');
    same_payload = ground (arith, e, f, f', at, at', d, d');
  }

  -- Two maps that know the nodes of one arena make no difference to a lookup.
  pub IsFiled-SaysSame :
      (idx idx' : HnswIndex)
      → idx'.nodes ≡ idx.nodes
      → IsFiled (length idx.nodes) idx.nodes idx.id_to_pos
      → IsFiled (length idx.nodes) idx.nodes idx'.id_to_pos
      → (j : VectorId) → SaysSame idx' idx j
  IsFiled-SaysSame idx idx' e w w' j = elim (Option-cases (Dict.get idx.id_to_pos j)) [
    | inl free ↦ elim (Option-cases (Dict.get idx'.id_to_pos j)) [
      | inl free' ↦ none-SaysSame idx idx' j free free'
      | inr (b, at_b) ↦
          let (node, there, same) = w'.found j b at_b in
          let (a, known) = w.all_filed b node (lt_of_get_elem? idx.nodes b there) there in
          absurd (ground (arith, known, same, free))
    ]
    | inr (a, at_a) ↦
        let (node, there, same) = w.found j a at_a in
        let inside = lt_of_get_elem? idx.nodes a there in
        elim (Bool-cases node.deleted) [
          | inr live ↦
              let at' : Dict.get idx'.id_to_pos j ≡ some a =
                rw same at (w'.live_filed a node inside there live) in
              node-SaysSame idx idx' j a node node at_a at' there (rw e there) (SameData-refl node)
          | inl dead ↦
              let (b, at_b) = w'.all_filed a node inside there in
              let at_b' : Dict.get idx'.id_to_pos j ≡ some b = rw same at at_b in
              let (other, there', same') = w'.found j b at_b' in
              elim (Bool-cases other.deleted) [
                | inl dead' ↦
                    dead-SaysSame idx idx' j a b node other e at_a at_b' there there' dead dead'
                | inr live' ↦
                    let at'' =
                      w.live_filed b other (lt_of_get_elem? idx.nodes b there') there' live' in
                    absurd (ground (arith, at'', same', at_a, there, there', dead, live'))
              ]
        ]
  ]
