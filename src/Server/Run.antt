-- ===== src/Server/Run.antt =====
-- A run of the server: the requests and the background flush in some order, from the state without
-- collections.
use vexdb.Prelude.{Bool, some, List, [], ◌∷◌, ◌≡◌, ◌∙◌, arith, String, Bool-cases, inl, inr}
use vexdb.Platform.{Platform}
use vexdb.Error.{VectorId}
use vexdb.Collections.Dict
use vexdb.Collections.Dict.{string_eq}
use vexdb.Server.{Files, Collection, AppState, flush, flush_each, flush_all, get}
use vexdb.Server.Routes.{
  CreateCollection, PointInput, upsert_points, delete_point, create_collection, drop_collection,
  snapshot_collection,
}
use vexdb.Server.Registry.{
  IsNamed, name-flush, upsert_points-IsNamed, delete_point-IsNamed, create_collection-IsNamed,
  drop_collection-IsNamed, snapshot_collection-IsNamed,
}

module _ ⦃p : Platform⦄ {Disk : Type 0} (files : Files Disk) where
  -- One request, or one round of the background task.
  pub data Step (state : AppState Disk) : AppState Disk → Type 0 where
    create :
        (name : String) (req : CreateCollection)
        → Step state (create_collection files state name req).0
    drop : (name : String) → Step state (drop_collection files state name).0
    upsert :
        (name : String) (points : List PointInput) → Step state (upsert_points state name points).0
    delete : (name : String) (id : VectorId) → Step state (delete_point state name id).0
    save_one : (name : String) → Step state (snapshot_collection files state name).0
    background : (force : Bool) → Step state (flush_all files state force).0

  pub data Reached (start : AppState Disk) : AppState Disk → Type 0 where
    at_start : Reached start start
    then : {mid end : AppState Disk} → Reached start mid → Step mid end → Reached start end

  -- A collection after a flush of all was there before, under the same key and name.
  flush_each-get :
      (disk : Disk) (cs : List (String × Collection)) (force : Bool) (key : String)
      (c' : Collection)
      → Dict.get (flush_each files disk cs force).0.1 key ≡ some c'
      → (c : Collection) × (Dict.get cs key ≡ some c) × (c'.name ≡ c.name)
  unfolding flush_each Dict.get
  flush_each-get disk [] force key c' h = cc
  flush_each-get disk ((k, c) ∷ cs) force key c' h = elim (Bool-cases (string_eq.beq k key)) [
    | inl e ↦ (c, ground (arith, e), ground (arith, e, h, name-flush files disk c force))
    | inr ne ↦
        let (d, at, same) =
          flush_each-get (flush files disk c force).0.0 cs force key c' (ground (arith, ne, h)) in
        (d, ground (arith, ne, at), same)
  ]

  flush_all-IsNamed :
      (state : AppState Disk) (force : Bool)
      → IsNamed state
      → IsNamed (flush_all files state force).0
  unfolding IsNamed flush_all get
  flush_all-IsNamed state force named key c' h =
      let (c, at, same) = flush_each-get state.disk state.collections force key c' h in
      let (valid, filed) = named key c at in (valid, same ∙ filed)

  Step-IsNamed : {state state' : AppState Disk} → IsNamed state → Step state state' → IsNamed state'
  Step-IsNamed {state} named (create name req) =
      create_collection-IsNamed files state name req named
  Step-IsNamed {state} named (drop name) = drop_collection-IsNamed files state name named
  Step-IsNamed {state} named (upsert name points) = upsert_points-IsNamed state name points named
  Step-IsNamed {state} named (delete name id) = delete_point-IsNamed state name id named
  Step-IsNamed {state} named (save_one name) = snapshot_collection-IsNamed files state name named
  Step-IsNamed {state} named (background force) = flush_all-IsNamed state force named

  -- In every state that a run of requests and background flushes reaches from a state in which each
  -- collection is filed under its own name and that name passes `validate_name`, the same holds.
  pub Reached-IsNamed :
      {start end : AppState Disk} → IsNamed start → Reached start end → IsNamed end
  Reached-IsNamed named at_start = named
  Reached-IsNamed named (then run step) = Step-IsNamed (Reached-IsNamed named run) step
