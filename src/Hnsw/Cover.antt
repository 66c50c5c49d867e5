-- ===== src/Hnsw/Cover.antt =====
-- What the beam of `search_layer` has covered of a layer.
use vexdb.Prelude.{
  ℕ, zero, suc, ◌≤◌, ◌<◌, Bool, true, false, some, List, [], ◌∷◌, ◌≡◌, refl, sym, arith, length,
  get_elem?, set, take, All, All-imp, All-both, Bool-cases, ◌⊎◌, inl, inr, length-take,
  take_of_length-le,
}
use vexdb.Prelude.Order.{is_lt}
use vexdb.Platform.{Platform}
use vexdb.Error.{Outcome, ok}
use vexdb.Collections.Heap.{push, push_all}
use vexdb.Collections.Heap.Sorted.{IsSorted, NotBefore, length-push}
use vexdb.Collections.Heap.Kept.{push-cut}
use vexdb.Hnsw.{HnswIndex, Candidate, cmp_candidate, neighbors_at}
use vexdb.Hnsw.Graph.{Reaches}
use vexdb.Hnsw.Graph.Reaches.{here, along}
use vexdb.Hnsw.Layer.{Beam, visit, admit_best}
use vexdb.Hnsw.Beam.{get_elem?-set-true}

abbrev pub IsSeen : List Bool → ℕ → Type 0
IsSeen visited n = get_elem? visited n ≡ some true

pub get_elem?-set_cases :
    (bs : List Bool) (i j : ℕ) → IsSeen (set bs j true) i → (j ≡ i) ⊎ IsSeen bs i
get_elem?-set_cases [] i j h = inr h
get_elem?-set_cases (b ∷ bs) zero zero h = inl refl
get_elem?-set_cases (b ∷ bs) zero (suc j) h = inr h
get_elem?-set_cases (b ∷ bs) (suc i) zero h = inr h
get_elem?-set_cases (b ∷ bs) (suc i) (suc j) h = elim (get_elem?-set_cases bs i j h) [
  | inl e ↦ inl (rw e refl)
  | inr seen ↦ inr seen
]

module _ ⦃p : Platform⦄ where
  -- One of the candidates is the node.
  abbrev pub Listed : ℕ → List Candidate → Type 0
  Listed n [] = ⊥
  Listed n (c ∷ cs) = (c.node ≡ n) ⊎ Listed n cs

  Listed-push_self :
      (n : ℕ) (c : Candidate) (h : List Candidate) → c.node ≡ n → Listed n (push cmp_candidate c h)
  unfolding push
  Listed-push_self n c [] same = inl same
  Listed-push_self n c (x ∷ xs) same = elim (Bool-cases (is_lt (cmp_candidate c x))) [
    | inl e ↦ rw e (inl same)
    | inr e ↦ rw e (inr (Listed-push_self n c xs same))
  ]

  Listed-push :
      (n : ℕ) (c : Candidate) (h : List Candidate) → Listed n h → Listed n (push cmp_candidate c h)
  unfolding push
  Listed-push n c [] l = elim l [ ]
  Listed-push n c (x ∷ xs) l = elim (Bool-cases (is_lt (cmp_candidate c x))) [
    | inl e ↦ rw e (inr l)
    | inr e ↦ rw e (elim l [ inl same ↦ inl same | inr later ↦ inr (Listed-push n c xs later) ])
  ]

  pub Listed-push_all :
      (n : ℕ) (h xs : List Candidate)
      → Listed n h ⊎ Listed n xs
      → Listed n (push_all cmp_candidate h xs)
  unfolding push_all
  Listed-push_all n h [] (inl l) = l
  Listed-push_all n h [] (inr l) = elim l [ ]
  Listed-push_all n h (x ∷ xs) (inl l) =
      Listed-push_all n (push cmp_candidate x h) xs (inl (Listed-push n x h l))
  Listed-push_all n h (x ∷ xs) (inr (inl same)) =
      Listed-push_all n (push cmp_candidate x h) xs (inl (Listed-push_self n x h same))
  Listed-push_all n h (x ∷ xs) (inr (inr l)) = Listed-push_all n (push cmp_candidate x h) xs (inr l)

  -- A listed node is among the first `k` candidates of a sorted list, or these are `k` and none of
  -- them comes after its own.
  pub Listed-take {κ} :
      (Q : Candidate → Type κ) (k : ℕ) (xs : List Candidate) (n : ℕ)
      → IsSorted cmp_candidate xs
      → All Q xs
      → Listed n xs
      → Listed n (take k xs)
        ⊎ ((length (take k xs) ≡ k)
            × ((c : Candidate) × (c.node ≡ n)
                × Q c
                × All (λ h. NotBefore cmp_candidate h c) (take k xs)))
  Listed-take Q k [] n s q l = elim l [ ]
  Listed-take Q zero (x ∷ xs) n s q (inl same) = inr (refl, (x, same, q.0, tt))
  Listed-take Q zero (x ∷ xs) n s q (inr later) = elim (Listed-take Q zero xs n s.1 q.1 later) [
    | inl l ↦ elim l [ ]
    | inr found ↦ inr found
  ]
  Listed-take Q (suc k) (x ∷ xs) n s q (inl same) = inl (inl same)
  Listed-take Q (suc k) (x ∷ xs) n s q (inr later) =
      elim (Listed-take (λ c. Q c × NotBefore cmp_candidate x c) k xs n s.1
        (All-both Q (NotBefore cmp_candidate x) xs q.1 s.0) later) [
          | inl l ↦ inl (inr l)
          | inr (size, (c, same, (good, after), behind)) ↦
              inr (omega (arith, size), (c, same, good, (after, behind)))
        ]

  module _ (idx : HnswIndex) (layer : ℕ) (admit : ℕ → Outcome Bool) (ef : ℕ) where
    -- All the neighbours of the node are visited.
    abbrev pub IsFollowed : List Bool → ℕ → Type 0
    IsFollowed visited n =
        (list : List ℕ) → neighbors_at idx n layer ≡ ok list → All (IsSeen visited) list

    pub record IsCovered (open_at : ℕ → Type 0) (b : Beam) : Type 0 where
      pub kept :
          length b.best < ef → (n : ℕ) → IsSeen b.visited n → admit n ≡ ok true → Listed n b.best
      pub followed :
          length b.best < ef
          → (n : ℕ) → IsSeen b.visited n
          → Listed n b.frontier ⊎ open_at n ⊎ IsFollowed b.visited n

    IsFollowed-set :
        (visited : List Bool) (nb n : ℕ) → IsFollowed visited n → IsFollowed (set visited nb true) n
    IsFollowed-set visited nb n h list at =
        All-imp (λ m seen. get_elem?-set-true visited m nb seen) list (h list at)

    module _ (open_at : ℕ → Type 0) (b : Beam) (c : Candidate) (h : IsCovered open_at b) where
      IsFollowed-on :
          length b.best < ef
          → (n : ℕ) → IsSeen (set b.visited c.node true) n
          → Listed n (push cmp_candidate c b.frontier)
            ⊎ open_at n
            ⊎ IsFollowed (set b.visited c.node true) n
      IsFollowed-on room n seen = elim (get_elem?-set_cases b.visited n c.node seen) [
        | inl same ↦ inl (Listed-push_self n c b.frontier same)
        | inr before ↦ elim (h.followed room n before) [
          | inl waits ↦ inl (Listed-push n c b.frontier waits)
          | inr (inl still) ↦ inr (inl still)
          | inr (inr done) ↦ inr (inr (IsFollowed-set b.visited c.node n done))
        ]
      ]

      -- Onto the frontier only.
      pub routed-IsCovered :
          admit c.node ≡ ok false
          → IsCovered open_at
              (record (visit b c.node) { frontier = push cmp_candidate c b.frontier })
      routed-IsCovered refused = record {
        kept = λ room n seen yes_n. elim (get_elem?-set_cases b.visited n c.node seen) [
          | inl same ↦ absurd (let no_n : admit n ≡ ok false = rw same at refused in cc)
          | inr before ↦ h.kept room n before yes_n
        ];
        followed = IsFollowed-on;
      }

      -- Onto the frontier and among the results.
      pub admitted-IsCovered :
          length b.best ≤ ef
          → IsCovered open_at (record (visit b c.node) {
            frontier = push cmp_candidate c b.frontier;
            best = admit_best ef b.best c;
          })
      unfolding admit_best
      admitted-IsCovered short =
          let pushed = push cmp_candidate c b.best in
          let size = length-push cmp_candidate c b.best in
          let cut = length-take ef pushed in
          rw (push-cut cmp_candidate ef b.best c short) (record {
            kept = λ room n seen yes_n.
                let fits : length pushed ≤ ef = omega (arith, size, cut, room) in
                rw (take_of_length-le ef pushed fits)
                  (elim (get_elem?-set_cases b.visited n c.node seen) [
                    | inl same ↦ Listed-push_self n c b.best same
                    | inr before ↦
                        Listed-push n c b.best (h.kept (omega (arith, size, fits)) n before yes_n)
                  ]);
            followed = λ room. IsFollowed-on (omega (arith, size, cut, room));
          })

      -- Only visited: there was no room.
      pub rejected-IsCovered : ef ≤ length b.best → IsCovered open_at (visit b c.node)
      rejected-IsCovered full = record {
        kept = λ room. absurd (omega (arith, room, full));
        followed = λ room. absurd (omega (arith, room, full));
      }

    -- No node is open.
    abbrev pub NoneOpen : ℕ → Type 0
    NoneOpen n = ⊥

    -- A node is taken from the frontier, and is open.
    pub popped-IsCovered :
        (b : Beam) (c : Candidate) (frontier : List Candidate)
        → b.frontier ≡ c ∷ frontier
        → IsCovered NoneOpen b
        → IsCovered (λ n. n ≡ c.node) (record b { frontier = frontier })
    popped-IsCovered b c frontier same h = record {
      kept = h.kept;
      followed = λ room n seen. elim (h.followed room n seen) [
        | inl waits ↦
            let listed : Listed n (c ∷ frontier) = rw same at waits in
            elim listed [ inl this ↦ inr (inl (sym this)) | inr later ↦ inl later ]
        | inr (inl never) ↦ elim never [ ]
        | inr (inr done) ↦ inr (inr done)
      ];
    }

    -- The open node has been expanded.
    pub expanded-IsCovered :
        (b : Beam) (from : ℕ) (list : List ℕ)
        → neighbors_at idx from layer ≡ ok list
        → All (IsSeen b.visited) list
        → IsCovered (λ n. n ≡ from) b
        → IsCovered NoneOpen b
    expanded-IsCovered b from list at seen_all h = record {
      kept = h.kept;
      followed = λ room n seen. elim (h.followed room n seen) [
        | inl waits ↦ inl waits
        | inr (inl this) ↦ inr (
            inr (λ other also.
              let its : neighbors_at idx from layer ≡ ok other = rw this at also in
              let same : list ≡ other = cc in rw same at seen_all))
        | inr (inr done) ↦ inr (inr done)
      ];
    }

    -- While there is room, what was visited is closed under the links, and its admitted nodes are results.
    pub record IsClosed (b : Beam) : Type 0 where
      pub links_seen : length b.best < ef → (n : ℕ) → IsSeen b.visited n → IsFollowed b.visited n
      pub listed :
          length b.best < ef → (n : ℕ) → IsSeen b.visited n → admit n ≡ ok true → Listed n b.best

    pub full-IsClosed : (b : Beam) → ef ≤ length b.best → IsClosed b
    full-IsClosed b full = record {
      links_seen = λ room. absurd (omega (arith, room, full));
      listed = λ room. absurd (omega (arith, room, full));
    }

    pub exhausted-IsClosed : (b : Beam) → b.frontier ≡ [] → IsCovered NoneOpen b → IsClosed b
    exhausted-IsClosed b same h = record {
      links_seen = λ room n seen. elim (h.followed room n seen) [
        | inl waits ↦ let listed : Listed n [] = rw same at waits in elim listed [ ]
        | inr (inl never) ↦ elim never [ ]
        | inr (inr done) ↦ done
      ];
      listed = h.kept;
    }

    All-get {κ} :
        (P : ℕ → Type κ) (xs : List ℕ) (i : ℕ) {x : ℕ} → All P xs → get_elem? xs i ≡ some x → P x
    All-get P [] i h at = cc
    All-get P (y ∷ ys) zero h at = let same : y ≡ _ = cc in rw same at h.0
    All-get P (y ∷ ys) (suc i) h at = All-get P ys i h.1 at

    pub Reaches-IsSeen :
        (b : Beam) (start n : ℕ)
        → IsClosed b
        → length b.best < ef
        → IsSeen b.visited start
        → Reaches idx layer start n
        → IsSeen b.visited n
    Reaches-IsSeen b start n closed room at_start here = at_start
    Reaches-IsSeen b start n closed room at_start (along {mid = mid} list i before its at) =
        All-get (IsSeen b.visited) list i
          (closed.links_seen room mid (Reaches-IsSeen b start mid closed room at_start before) list
            its)
          at
