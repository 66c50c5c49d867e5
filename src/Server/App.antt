-- ===== src/Server/App.antt =====
-- `app` of crates/vex-server/src/lib.rs: which handler a request goes to, and the status and the body that
-- it is answered with (crates/vex-server/src/error.rs, routes.rs). The router has matched the path and
-- parsed the body of the request.
use Prim.Native.Nat.{Ordering, compare}
use vexdb.Prelude.{ℕ, Bool, true, Option, none, some, List, [], ◌∷◌, String}
use vexdb.Prelude.Order.{then_with}
use vexdb.Platform.{Platform}
use vexdb.Error.{VectorId}
use vexdb.Collections.Heap.{sort}
use vexdb.Distance.Metric.{DistanceMetric, l2}
use vexdb.Distance.Tags.{codes}
use vexdb.Hnsw.{default_config}
use vexdb.Payload.{Filter}
use vexdb.Server.{
  ApiError, bad_request, not_found, conflict, read_only, internal, Reply, done, failed, panicked,
  stuck, Files, Collection, AppState,
}
use vexdb.Server.Routes.{
  CreateCollection, PointInput, SearchRequest, SearchHit, CollectionStats, stats, create_collection,
  drop_collection, collection_stats, upsert_points, delete_point, search, snapshot_collection,
}

-- `ApiError::status`
unfoldable pub status : ApiError → ℕ
status (bad_request message) = 400
status not_found = 404
status conflict = 409
status read_only = 403
status internal = 500

-- `str::cmp`, on the code points: UTF-8 keeps their order.
abbrev pub cmp_text : List ℕ → List ℕ → Ordering
cmp_text [] [] = Ordering.eq
cmp_text [] (d ∷ ds) = Ordering.lt
cmp_text (c ∷ cs) [] = Ordering.gt
cmp_text (c ∷ cs) (d ∷ ds) = then_with (compare c d) (cmp_text cs ds)

unfoldable pub cmp_stats : CollectionStats → CollectionStats → Ordering
cmp_stats a b = cmp_text (codes a.name) (codes b.name)

-- A body of `POST /collections/{name}`, where a field may be left out.
pub record CreateBody : Type 0 where
  pub dim : ℕ
  pub metric : Option DistanceMetric
  pub index : Option String
  pub m : Option ℕ
  pub ef_construction : Option ℕ
  pub ef_search : Option ℕ

abbrev or_default {ℓ} : {A : Type ℓ} → Option A → A → A
or_default none d = d
or_default (some a) d = a

-- The defaults that serde fills in.
unfoldable pub fill_create : CreateBody → CreateCollection
fill_create body = record {
  dim = body.dim;
  metric = or_default body.metric l2;
  index = or_default body.index "hnsw";
  m = or_default body.m default_config.m;
  ef_construction = or_default body.ef_construction default_config.ef_construction;
  ef_search = or_default body.ef_search default_config.ef_search;
}

module _ ⦃p : Platform⦄ where
  open p use {F32}

  -- A body of `POST /collections/{name}/search`.
  pub record SearchBody : Type 0 where
    pub query : List F32
    pub k : Option ℕ
    pub ef : Option ℕ
    pub filter : Option Filter
    pub with_payload : Option Bool

  unfoldable pub fill_search : SearchBody → SearchRequest
  fill_search body = record {
    query = body.query;
    k = or_default body.k 10;
    ef = body.ef;
    filter = body.filter;
    with_payload = or_default body.with_payload true;
  }

  pub data Request : Type 0 where
    get_page : Request
    get_health : Request
    get_collections : Request
    post_collection : String → CreateBody → Request
    get_collection : String → Request
    delete_collection : String → Request
    post_points : String → List PointInput → Request
    delete_id : String → VectorId → Request
    post_search : String → SearchBody → Request
    post_snapshot : String → Request

  pub data Body : Type 0 where
    nothing : Body
    page : Body
    healthy : Body
    listed : List CollectionStats → Body
    described : CollectionStats → Body
    upserted : ℕ → Body
    removed : Bool → Body
    results : List SearchHit → Body
    saved : Body
    error : ApiError → Body

  -- `aborted`: the handler panicked. `unfinished` is no outcome of the code.
  pub data Response : Type 0 where
    response : ℕ → Body → Response
    aborted : Response
    unfinished : Response

  -- `IntoResponse` of a handler's result, which has the status `code` where it is no error.
  abbrev pub respond : {A : Type 0} → ℕ → (A → Body) → Reply A → Response
  respond code body (done a) = response code (body a)
  respond code body (failed e) = response (status e) (error e)
  respond code body panicked = aborted
  respond code body stuck = unfinished

  abbrev all_stats : List (String × Collection) → List CollectionStats
  all_stats [] = []
  all_stats ((key, c) ∷ cs) = stats c ∷ all_stats cs

  module _ {Disk : Type 0} where
    unfoldable pub list_collections : AppState Disk → Reply (List CollectionStats)
    list_collections state = done (sort cmp_stats (all_stats state.collections))

    -- A handler that changes the state, with the response to its reply.
    abbrev pub answer :
        {A : Type 0} → ℕ → (A → Body) → AppState Disk × Reply A → AppState Disk × Response
    answer code body (state, reply) = (state, respond code body reply)

    unfoldable pub app : Files Disk → AppState Disk → Request → AppState Disk × Response
    app files state get_page = (state, response 200 page)
    app files state get_health = (state, response 200 healthy)
    app files state get_collections = (state, respond 200 listed (list_collections state))
    app files state (post_collection name body) =
        answer 201 described (create_collection files state name (fill_create body))
    app files state (get_collection name) =
        (state, respond 200 described (collection_stats state name))
    app files state (delete_collection name) =
        answer 204 (λ _. nothing) (drop_collection files state name)
    app files state (post_points name points) =
        answer 200 upserted (upsert_points state name points)
    app files state (delete_id name id) = answer 200 removed (delete_point state name id)
    app files state (post_search name body) =
        (state, respond 200 results (search state name (fill_search body)))
    app files state (post_snapshot name) =
        answer 200 (λ _. saved) (snapshot_collection files state name)
