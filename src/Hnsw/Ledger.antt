-- ===== src/Hnsw/Ledger.antt =====
-- The ids and the live count of the indexes that insertions and removals make of an empty one.
use vexdb.Prelude.{
  ℕ, suc, ◌+◌, ◌-◌, ◌<◌, Bool, true, false, Option, some, List, [], ◌∷◌, ◌≡◌, ◌≢◌, refl, sym, ap,
  ◌∙◌, arith, length, get_elem?, set, get_elem?-set_self, get_elem?-set_ne, Bool-cases,
  Option-cases, ◌⊎◌, inl, inr, ◌==◌, if◌then◌else◌,
}
use vexdb.Platform.{Platform}
use vexdb.Platform.Laws.{FloatOrder}
use vexdb.Error.{VectorId, ok}
use vexdb.Vector.{Vector}
use vexdb.Collections.Dict
use vexdb.Collections.Dict.{nat_eq}
use vexdb.Collections.Vec.{get_elem?_of_lt, lt_of_get_elem?}
use vexdb.Distance.Metric.{DistanceMetric}
use vexdb.Hnsw.{HnswIndex, HnswConfig, Node, node_at, new}
use vexdb.Hnsw.Insert.{is_taken, remove}
use vexdb.Hnsw.Tombstones.{live_nodes, live_nodes-set}
use vexdb.Hnsw.Rewire.{get_elem?-set_inv}
use vexdb.Hnsw.Filed.{IsFiled}
use vexdb.Hnsw.Grown.{IsGrown}
use vexdb.Hnsw.Built.{IsUsable, Built, Built-IsIndex, add_with_payload-kept}
use vexdb.Hnsw.Built.Built.{empty, added, removed}

module _ ⦃p : Platform⦄ where
  open p use {Value}

  -- The map knows every node, and the live nodes are counted.
  pub record IsLedger (idx : HnswIndex) : Type 0 where
    pub filed : IsFiled (length idx.nodes) idx.nodes idx.id_to_pos
    pub counted : idx.live_count ≡ live_nodes idx.nodes

  new-IsLedger :
      (dim : ℕ) (metric : DistanceMetric) (config : HnswConfig) → IsLedger (new dim metric config)
  unfolding new Dict.get live_nodes
  new-IsLedger dim metric config = record {
    filed = record {
      found = λ id pos h. cc;
      live_filed = λ n node low. absurd (omega (arith, low));
      all_filed = λ n node low. absurd (omega (arith, low));
    };
    counted = refl;
  }

  -- Nodes that were copied, and a live one behind them.
  live_nodes-copied :
      (old new : List Node) (last : Node)
      → length new ≡ length old + 1
      → get_elem? new (length old) ≡ some last
      → last.deleted ≡ false
      → ((n : ℕ) (node : Node)
          → get_elem? old n ≡ some node
          → (copy : Node) × (get_elem? new n ≡ some copy) × (copy.deleted ≡ node.deleted))
      → live_nodes new ≡ live_nodes old + 1
  unfolding live_nodes
  live_nodes-copied [] [] last size at live copied = absurd (omega arith)
  live_nodes-copied [] (x ∷ []) last size at live copied =
      let e : x ≡ last = cc in rw (e, live) (omega arith)
  live_nodes-copied [] (x ∷ y ∷ new) last size at live copied = absurd (omega arith)
  live_nodes-copied (o ∷ old) [] last size at live copied = absurd (omega arith)
  live_nodes-copied (o ∷ old) (x ∷ new) last size at live copied =
      let (copy, here, same) = copied 0 o refl in
      let e : x ≡ copy = cc in
      let rest = live_nodes-copied old new last (omega arith) at live (λ n. copied (suc n)) in
      ground (arith, rest, same, e)

  module _ (idx idx' : HnswIndex) (w : IsLedger idx) (id : VectorId) (v : Vector)
      (payload : Option Value) (free : is_taken idx id ≡ ok false)
      (g : IsGrown idx id v payload idx') where
    -- No live node has the id.
    untaken :
        (n : ℕ) (node : Node)
        → get_elem? idx.nodes n ≡ some node
        → node.deleted ≡ false
        → node.id ≢ id
    unfolding is_taken node_at
    untaken n node at live same =
        let named = w.filed.live_filed n node (lt_of_get_elem? idx.nodes n at) at live in
        ground (arith, named, same, at, live, free)

    -- A node of the index after the insertion is the new one, or has the data of an old one.
    grown_node :
        (n : ℕ) (node : Node)
        → get_elem? idx'.nodes n ≡ some node
        → ((n ≡ length idx.nodes) × (node.id ≡ id))
          ⊎ ((old : Node) × (get_elem? idx.nodes n ≡ some old)
              × (node.id ≡ old.id)
              × (node.deleted ≡ old.deleted))
    grown_node n node at =
        let inside = lt_of_get_elem? idx'.nodes n at in
        elim (Bool-cases (n == length idx.nodes)) [
          | inl e ↦
              let (copy, there, d) = g.stored in
              inl (ground (arith, e), ground (arith, e, at, there, d.same_id))
          | inr ne ↦
              let low : n < length idx.nodes = ground (arith, ne, inside, g.size) in
              let (old, was) = get_elem?_of_lt idx.nodes n low in
              let (copy, there, d) = g.copied n old was in
              inr (
                old,
                was,
                ground (arith, at, there, d.same_id),
                ground (arith, at, there, d.same_deleted),
              )
        ]

    named :
        (j : VectorId)
        → Dict.get idx'.id_to_pos j
          ≡ (if id == j then some (length idx.nodes) else Dict.get idx.id_to_pos j)
    named j =
        ap (λ m. Dict.get m j) g.mapped ∙ Dict.get-insert idx.id_to_pos id (length idx.nodes) j

    grown_found :
        (j : VectorId) (pos : ℕ)
        → Dict.get idx'.id_to_pos j ≡ some pos
        → (node : Node) × (get_elem? idx'.nodes pos ≡ some node) × (node.id ≡ j)
    grown_found j pos h = elim (Bool-cases (id == j)) [
      | inl e ↦
          let (copy, there, d) = g.stored in
          (copy, ground (arith, h, named j, e, there), ground (arith, e, d.same_id))
      | inr ne ↦
          let (node, at, same) = w.filed.found j pos (ground (arith, h, named j, ne)) in
          let (copy, there, d) = g.copied pos node at in (copy, there, d.same_id ∙ same)
    ]

    grown_live :
        (n : ℕ) (node : Node)
        → get_elem? idx'.nodes n ≡ some node
        → node.deleted ≡ false
        → Dict.get idx'.id_to_pos node.id ≡ some n
    grown_live n node at live = elim (grown_node n node at) [
      | inl (e, same) ↦ ground (arith, e, same, named node.id)
      | inr (old, was, same, dead) ↦
          let before =
            w.filed.live_filed n old (lt_of_get_elem? idx.nodes n was) was (sym dead ∙ live) in
          let other = untaken n old was (sym dead ∙ live) in
          ground (arith, before, same, other, named node.id)
    ]

    grown_all :
        (n : ℕ) (node : Node)
        → get_elem? idx'.nodes n ≡ some node
        → (pos : ℕ) × (Dict.get idx'.id_to_pos node.id ≡ some pos)
    grown_all n node at = elim (Bool-cases (id == node.id)) [
      | inl e ↦ (length idx.nodes, ground (arith, e, named node.id))
      | inr ne ↦ elim (grown_node n node at) [
        | inl (_, same) ↦ absurd (ground (arith, ne, same))
        | inr (old, was, same, _) ↦
            let (pos, known) = w.filed.all_filed n old (lt_of_get_elem? idx.nodes n was) was in
            (pos, ground (arith, known, same, ne, named node.id))
      ]
    ]

    IsGrown-IsLedger : IsLedger idx'
    IsGrown-IsLedger =
        let (last, there, d) = g.stored in
        record {
          filed = record {
            found = grown_found;
            live_filed = λ n node low. grown_live n node;
            all_filed = λ n node low. grown_all n node;
          };
          counted =
              g.counted
              ∙ ap (λ c. c + 1) w.counted
              ∙ sym (
                  live_nodes-copied idx.nodes idx'.nodes last g.size there d.same_deleted
                    (λ n node at.
                      let (copy, here, e) = g.copied n node at in (copy, here, e.same_deleted)));
        }

  -- A tombstone keeps the id, and is no longer counted.
  module _ (idx : HnswIndex) (w : IsLedger idx) (pos : ℕ) (node : Node)
      (at : get_elem? idx.nodes pos ≡ some node) (alive : node.deleted ≡ false) where
    abbrev tomb : Node
    tomb = record node { deleted = true }

    abbrev buried : HnswIndex
    buried = record idx { nodes = set idx.nodes pos tomb; live_count = idx.live_count - 1 }

    before :
        (n : ℕ) (other : Node)
        → get_elem? buried.nodes n ≡ some other
        → (old : Node) × (get_elem? idx.nodes n ≡ some old)
          × (old.id ≡ other.id)
          × (other.deleted ≡ false → old.deleted ≡ false)
    before n other there = elim (get_elem?-set_inv idx.nodes pos n tomb there) [
      | inl (e, same) ↦ (node, rw (← e) at, ap (λ (x : Node). x.id) same, λ live. alive)
      | inr (ne, old) ↦ (other, old, refl, λ live. live)
    ]

    after :
        (n : ℕ) (old : Node)
        → get_elem? idx.nodes n ≡ some old
        → (other : Node) × (get_elem? buried.nodes n ≡ some other) × (other.id ≡ old.id)
    after n old was = elim (Bool-cases (pos == n)) [
      | inr ne ↦ (old, get_elem?-set_ne idx.nodes tomb (ground (arith, ne)) ∙ was, refl)
      | inl e ↦
          let same : pos ≡ n = ground (arith, e) in
          let here = get_elem?-set_self idx.nodes pos tomb (lt_of_get_elem? idx.nodes pos at) in
          (tomb, rw (← same) here, ground (arith, at, was, same))
    ]

    buried-IsLedger : IsLedger buried
    buried-IsLedger = record {
      filed = record {
        found = λ id q h.
            let (old, was, same) = w.filed.found id q h in
            let (other, there, e) = after q old was in (other, there, e ∙ same);
        live_filed = λ n other low there live.
            let (old, was, same, lives) = before n other there in
            let inside = lt_of_get_elem? idx.nodes n was in
            rw same at (w.filed.live_filed n old inside was (lives live));
        all_filed = λ n other low there.
            let (old, was, same, _) = before n other there in
            rw same at (w.filed.all_filed n old (lt_of_get_elem? idx.nodes n was) was);
      };
      counted = omega (arith, live_nodes-set idx.nodes pos node at alive, w.counted);
    }

  -- A removal never fails on such an index.
  pub remove-IsLedger :
      (idx : HnswIndex)
      → IsLedger idx
      → (id : VectorId)
      → (idx' : HnswIndex) × (was : Bool) × (remove idx id ≡ ok (idx', was)) × IsLedger idx'
  unfolding remove node_at
  remove-IsLedger idx w id = elim (Option-cases (Dict.get idx.id_to_pos id)) [
    | inl free ↦ (idx, false, ground (arith, free), w)
    | inr (pos, found) ↦
        let (node, at, same) = w.filed.found id pos found in
        elim (Bool-cases node.deleted) [
          | inl dead ↦ (idx, false, ground (arith, found, at, dead), w)
          | inr alive ↦
              let positive : idx.live_count ≢ 0 =
                omega (arith, live_nodes-set idx.nodes pos node at alive, w.counted) in
              (
                buried idx w pos node at alive,
                true,
                ground (arith, found, at, alive, positive),
                buried-IsLedger idx w pos node at alive,
              )
        ]
  ]

  -- The books are kept. Where `f32::total_cmp` is a total order that agrees with `<`, and the configuration
  -- has an `ef_construction` of at least 1 and samples no level as high as usize::MAX, in every index
  -- that successful insertions and removals, in any order, make of the empty one: the map leads from an id
  -- to a node of that id, it knows the id of every node, it leads to the live node of an id where there
  -- is one, so that no two live nodes share an id, and the live count is the number of live nodes.
  pub Built-IsLedger :
      FloatOrder p
      → (dim : ℕ) (metric : DistanceMetric) (config : HnswConfig) → IsUsable config
      → {idx : HnswIndex} → Built dim metric config idx
      → IsLedger idx
  Built-IsLedger floats dim metric config usable empty = new-IsLedger dim metric config
  Built-IsLedger floats dim metric config usable
        (added {idx = idx} {idx' = idx'} id v payload built run) =
      let (w, same, _) = Built-IsIndex floats dim metric config usable built in
      let (free, grown) =
        add_with_payload-kept floats dim metric config usable idx idx' id v payload w same run in
      IsGrown-IsLedger idx idx' (Built-IsLedger floats dim metric config usable built) id v payload
        free grown
  Built-IsLedger floats dim metric config usable
        (removed {idx = idx} {idx' = idx'} id was built run) =
      let (other, _, done, w') =
        remove-IsLedger idx (Built-IsLedger floats dim metric config usable built) id in
      let e : other ≡ idx' = cc in rw (← e) w'
