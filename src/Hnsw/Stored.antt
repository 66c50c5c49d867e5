-- ===== src/Hnsw/Stored.antt =====
-- What the lookups say after an insertion.
use vexdb.Prelude.{ℕ, true, Option, some, ◌≡◌, ◌≢◌, ap, ◌∙◌, arith, length, Option-cases, inl, inr}
use vexdb.Platform.{Platform}
use vexdb.Platform.Laws.{FloatOrder}
use vexdb.Error.{VectorId, ok}
use vexdb.Vector.{Vector}
use vexdb.Collections.Dict
use vexdb.Collections.Dict.{nat_eq}
use vexdb.Collections.Vec.{get_elem?_of_lt}
use vexdb.Distance.Metric.{DistanceMetric}
use vexdb.Hnsw.{HnswIndex, HnswConfig, node_at, contains, vector, payload}
use vexdb.Hnsw.Insert.{add_with_payload}
use vexdb.Hnsw.Insertion.{IsIndex}
use vexdb.Hnsw.Grown.{IsGrown}
use vexdb.Hnsw.Filed.{SaysSame, node-SaysSame, none-SaysSame}
use vexdb.Hnsw.Built.{IsUsable, Built, Built-IsIndex, add_with_payload-kept}

module _ ⦃p : Platform⦄ where
  open p use {Value}

  -- The index says of an id that it is live, with the vector and the payload, and says the same of every
  -- other id.
  pub record IsStored (idx : HnswIndex) (id : VectorId) (v : Vector) (pay : Option Value)
      (idx' : HnswIndex) : Type 0 where
    pub live : contains idx' id ≡ ok true
    pub its_vector : vector idx' id ≡ ok (some v)
    pub its_payload : payload idx' id ≡ ok pay
    pub rest : (j : VectorId) → j ≢ id → SaysSame idx' idx j

  module _ (idx idx' : HnswIndex) (w : IsIndex idx) (id : VectorId) (v : Vector)
      (pay : Option Value) (g : IsGrown idx id v pay idx') where
    named :
        (j : VectorId)
        → Dict.get idx'.id_to_pos j ≡ Dict.get (Dict.insert idx.id_to_pos id (length idx.nodes)) j
    named j = ap (λ m. Dict.get m j) g.mapped

    elsewhere : (j : VectorId) → j ≢ id → Dict.get idx'.id_to_pos j ≡ Dict.get idx.id_to_pos j
    elsewhere j ne =
        let got = Dict.get-insert idx.id_to_pos id (length idx.nodes) j in
        ground (arith, named j, got, ne)

    IsGrown-IsStored : IsStored idx id v pay idx'
    unfolding contains vector payload node_at
    IsGrown-IsStored =
        let found : Dict.get idx'.id_to_pos id ≡ some (length idx.nodes) =
          named id ∙ Dict.get-insert_self idx.id_to_pos id (length idx.nodes) in
        let (node, at, d) = g.stored in
        record {
          live = ground (arith, found, at, d.same_deleted);
          its_vector = ground (arith, found, at, d.same_deleted, d.same_vector);
          its_payload = ground (arith, found, at, d.same_deleted, d.same_payload);
          rest = λ j ne. elim (Option-cases (Dict.get idx.id_to_pos j)) [
            | inl free ↦ none-SaysSame idx idx' j free (elsewhere j ne ∙ free)
            | inr (n, at_n) ↦
                let (old, there) = get_elem?_of_lt idx.nodes n (w.placed j n at_n) in
                let (copy, here, same) = g.copied n old there in
                node-SaysSame idx idx' j n old copy at_n (elsewhere j ne ∙ at_n) there here same
          ];
        }

  -- An insertion stores its vector, and nothing else. Where `f32::total_cmp` is a total order that
  -- agrees with `<`, and the configuration has an `ef_construction` of at least 1 and samples no level as
  -- high as usize::MAX, when an insertion into an index that successful insertions and removals made of
  -- the empty one succeeds: the index then contains the id, with that vector and that payload, and says of
  -- every other id what it said before.
  pub add_with_payload-IsStored :
      FloatOrder p
      → (dim : ℕ) (metric : DistanceMetric) (config : HnswConfig) → IsUsable config
      → (idx idx' : HnswIndex) → Built dim metric config idx
      → (id : VectorId) (v : Vector) (pay : Option Value) → add_with_payload idx id v pay ≡ ok idx'
      → IsStored idx id v pay idx'
  add_with_payload-IsStored floats dim metric config usable idx idx' built id v pay run =
      let (w, same, _) = Built-IsIndex floats dim metric config usable built in
      IsGrown-IsStored idx idx' w id v pay
        (add_with_payload-kept floats dim metric config usable idx idx' id v pay w same run).1
