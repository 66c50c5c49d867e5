-- ===== src/Server/ReadOnly.antt =====
-- `--read-only` of crates/vex-server/src/main.rs: the requests to a server that takes no writes.
use vexdb.Prelude.{true, ◌≡◌, refl}
use vexdb.Platform.{Platform}
use vexdb.Server.{read_only, failed, Files, AppState}
use vexdb.Server.Start.{tick}
use vexdb.Server.Routes.{
  create_collection, drop_collection, upsert_points, delete_point, snapshot_collection,
}
use vexdb.Server.App.{
  Request, response, error, app, fill_create, status, get_page, get_health, get_collections,
  post_collection, get_collection, delete_collection, post_points, delete_id, post_search,
  post_snapshot,
}

module _ ⦃p : Platform⦄ where
  -- The requests for a write.
  abbrev pub Writes : Request → Type 0
  Writes get_page = ⊥
  Writes get_health = ⊥
  Writes get_collections = ⊥
  Writes (post_collection name body) = Unit
  Writes (get_collection name) = ⊥
  Writes (delete_collection name) = Unit
  Writes (post_points name points) = Unit
  Writes (delete_id name id) = Unit
  Writes (post_search name body) = ⊥
  Writes (post_snapshot name) = Unit

  module _ {Disk : Type 0} (files : Files Disk) (state : AppState Disk)
      (frozen : state.is_read_only ≡ true) where
    still : tick files state ≡ state
    unfolding tick
    still = simp (frozen, tick)

    -- No request to a server in read-only mode changes its state, the disk included, every request for a
    -- write is answered with 403, and a tick of the background task changes nothing.
    pub app-ReadOnly :
        (request : Request)
        → ((app files state request).0 ≡ state)
          × (Writes request → (app files state request).1 ≡ response 403 (error read_only))
          × (tick files state ≡ state)
    unfolding app create_collection drop_collection upsert_points delete_point snapshot_collection
        status
    app-ReadOnly get_page = (refl, (λ w. absurd w), still)
    app-ReadOnly get_health = (refl, (λ w. absurd w), still)
    app-ReadOnly get_collections = (refl, (λ w. absurd w), still)
    app-ReadOnly (get_collection name) = (refl, (λ w. absurd w), still)
    app-ReadOnly (post_search name body) = (refl, (λ w. absurd w), still)
    app-ReadOnly (post_collection name body) =
        let e : create_collection files state name (fill_create body) ≡ (state, failed read_only) =
          simp (frozen, create_collection) in
        (rw e refl, λ w. rw e refl, still)
    app-ReadOnly (delete_collection name) =
        let e : drop_collection files state name ≡ (state, failed read_only) =
          simp (frozen, drop_collection) in
        (rw e refl, λ w. rw e refl, still)
    app-ReadOnly (post_points name points) =
        let e : upsert_points state name points ≡ (state, failed read_only) =
          simp (frozen, upsert_points) in
        (rw e refl, λ w. rw e refl, still)
    app-ReadOnly (delete_id name id) =
        let e : delete_point state name id ≡ (state, failed read_only) =
          simp (frozen, delete_point) in
        (rw e refl, λ w. rw e refl, still)
    app-ReadOnly (post_snapshot name) =
        let e : snapshot_collection files state name ≡ (state, failed read_only) =
          simp (frozen, snapshot_collection) in
        (rw e refl, λ w. rw e refl, still)
