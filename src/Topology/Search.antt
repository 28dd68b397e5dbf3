-- ===== src/Topology/Search.antt =====
-- The breadth-first search finds a walk if there is one, and ends.
use mathlib.Core.Path.{subst}
use auditspec.Prelude.{
  ℕ, zero, suc, ◌+◌, ◌≤◌, String, true, false, ◌||◌, Option, List, [], ◌∷◌, ◌++◌, ◌≡◌, ◌≢◌, refl,
  sym, ap, ◌∙◌, ◌⊎◌, inl, inr, arith, Member, member-append_left, member-append_right,
  append-member, Bool-cases, length, length-append,
}
use auditspec.Prelude.Text.{◌≟◌, ≟→eq, eq→≟, contains, contains-member, text_order}
use auditspec.Prelude.Order.{sort_by, member-sort_by, sort_by-member}
use auditspec.Prelude.Sets.{missing, missing-cons_lt, missing-le}
use auditspec.Topology.{
  Edge, Entry, is_removed, successors, enqueue, Found, path_found, no_path, no_fuel, bfs,
  shortest_path,
}
use auditspec.Topology.Walks.{
  Link, IsWalk, single, extend, Connected, IsWalk-kept, successors-Link, Link-successors,
}

-- A node in the queue.
abbrev Queued : String → List Entry → Type 0
Queued x queue = (p : List String) × Member (x, p) queue

record Enqueued (all path nodes visited : List String) (queue : List Entry)
    (r : List String × List Entry) : Type 0 where
  keeps : (x : String) → Member x visited → Member x (r.0)
  enters : (x : String) → Member x nodes → Member x (r.0)
  origin : (x : String) → Member x (r.0) → Member x visited ⊎ Queued x (r.1)
  queue_keeps : (e : Entry) → Member e queue → Member e (r.1)
  queue_origin :
      (x : String) (p : List String)
      → Member (x, p) (r.1)
      → Member (x, p) queue ⊎ (Member x nodes × (p ≡ path ++ x ∷ []))
  smaller : length (r.1) + missing all (r.0) ≤ length queue + missing all visited

enqueue_known :
    (path : List String) (n : String) (ns visited : List String) (queue : List Entry)
    → contains visited n ≡ true
    → enqueue path (n ∷ ns) visited queue ≡ enqueue path ns visited queue
unfolding enqueue
enqueue_known path n ns visited queue h = rw (h, enqueue)

enqueue_new :
    (path : List String) (n : String) (ns visited : List String) (queue : List Entry)
    → contains visited n ≡ false
    → enqueue path (n ∷ ns) visited queue
      ≡ enqueue path ns (n ∷ visited) (queue ++ (n, path ++ n ∷ []) ∷ [])
unfolding enqueue
enqueue_new path n ns visited queue h = rw (h, enqueue)

enqueue-Enqueued :
    (all path nodes visited : List String) (queue : List Entry)
    → ((x : String) → Member x nodes → Member x all)
    → Enqueued all path nodes visited queue (enqueue path nodes visited queue)
unfolding enqueue
enqueue-Enqueued all path [] visited queue h = record {
  keeps = λ x m. m;
  enters = λ x m. absurd m;
  origin = λ x m. inl m;
  queue_keeps = λ e m. m;
  queue_origin = λ x p m. inl m;
  smaller = omega arith;
}
enqueue-Enqueued all path (n ∷ ns) visited queue h = elim (Bool-cases (contains visited n)) [
  | inl t ↦
      let r = enqueue-Enqueued all path ns visited queue (λ x m. h x (inr m)) in
      subst (Enqueued all path (n ∷ ns) visited queue)
        (sym (enqueue_known path n ns visited queue t))
        (record {
          keeps = r.keeps;
          enters = λ x m. elim m [
            | inl e ↦
                r.keeps x (subst (λ y. Member y visited) (sym e) (contains-member visited n t))
            | inr k ↦ r.enters x k
          ];
          origin = r.origin;
          queue_keeps = r.queue_keeps;
          queue_origin =
              λ x p m. elim (r.queue_origin x p m) [ inl q ↦ inl q | inr (k, e) ↦ inr (inr k, e) ];
          smaller = r.smaller;
        })
  | inr f ↦
      let entry : Entry = (n, path ++ n ∷ []) in
      let r =
        enqueue-Enqueued all path ns (n ∷ visited) (queue ++ entry ∷ []) (λ x m. h x (inr m)) in
      let fewer = missing-cons_lt n all visited (h n (inl refl)) f in
      subst (Enqueued all path (n ∷ ns) visited queue) (sym (enqueue_new path n ns visited queue f))
        (record {
          keeps = λ x m. r.keeps x (inr m);
          enters = λ x m. elim m [ inl e ↦ r.keeps x (inl e) | inr k ↦ r.enters x k ];
          origin = λ x m. elim (r.origin x m) [
            | inl (inl e) ↦ inr (
              path ++ n ∷ [],
              subst
                  (λ y.
                    Member {A = Entry} (y, path ++ n ∷ [])
                      ((enqueue path ns (n ∷ visited) (queue ++ entry ∷ [])).1))
                  (sym e)
                  (r.queue_keeps entry (member-append_right entry queue (entry ∷ []) (inl refl))),
            )
            | inl (inr v) ↦ inl v
            | inr q ↦ inr q
          ];
          queue_keeps = λ e m. r.queue_keeps e (member-append_left e queue (entry ∷ []) m);
          queue_origin = λ x p m. elim (r.queue_origin x p m) [
            | inr (k, e) ↦ inr (inr k, e)
            | inl q ↦ elim (append-member (x, p) queue (entry ∷ []) q) [
              | inl old ↦ inl old
              | inr (inr z) ↦ absurd z
              | inr (inl e) ↦
                  let name : x ≡ n = ap (λ (y : Entry). y.0) e in
                  let list : p ≡ path ++ n ∷ [] = ap (λ (y : Entry). y.1) e in
                  inr (inl name, list ∙ ap (λ y. path ++ y ∷ []) (sym name))
            ]
          ];
          smaller = omega (arith, r.smaller, fewer, length-append queue (entry ∷ []));
        })
]

abbrev rights : List Edge → List String
rights [] = []
rights ((a, b) ∷ edges) = b ∷ rights edges

member-rights : (edges : List Edge) (m n : String) → Member (m, n) edges → Member n (rights edges)
member-rights [] m n i = absurd i
member-rights ((a, b) ∷ edges) m n (inl e) = inl (ap (λ (x : Edge). x.1) e)
member-rights ((a, b) ∷ edges) m n (inr i) = inr (member-rights edges m n i)

length-rights : (edges : List Edge) → length (rights edges) ≡ length edges
length-rights [] = refl
length-rights ((a, b) ∷ edges) = ap suc (length-rights edges)

module _ (edges : List Edge) (removed : Option String) (source sink : String) where
  -- A walk to the sink, or there is none.
  abbrev pub SearchVerdict : Found → Type 0
  SearchVerdict (path_found p) = IsWalk edges removed source p sink
  SearchVerdict no_path = ¬ Connected edges removed source sink
  SearchVerdict no_fuel = ⊥

  abbrev Expanded : List String → String → Type 0
  Expanded visited x = (x ≢ sink) × ((n : String) → Link edges removed x n → Member n visited)

  record Inv (visited : List String) (queue : List Entry) : Type 0 where
    walks : (x : String) (p : List String) → Member (x, p) queue → IsWalk edges removed source p x
    begun : Member source visited
    progress : (x : String) → Member x visited → Queued x queue ⊎ Expanded visited x

  abbrev sorted : String → List String
  sorted node = sort_by text_order (λ s. s) (successors edges removed node)

  Inv-next :
      (current : String) (path visited : List String) (queue : List Entry)
      → Inv visited ((current, path) ∷ queue)
      → current ≢ sink
      → (r : List String × List Entry)
      → Enqueued (rights edges) path (sorted current) visited queue r
      → Inv (r.0) (r.1)
  Inv-next current path visited queue i other r e = record {
    walks = λ x p m. elim (e.queue_origin x p m) [
      | inl q ↦ i.walks x p (inr q)
      | inr (n, d) ↦
          subst (λ y. IsWalk edges removed source y x) (sym d)
            (extend (i.walks current path (inl refl)) (
              successors-Link edges removed current x
                (sort_by-member text_order (λ s. s) x (successors edges removed current) n)))
    ];
    begun = e.keeps source i.begun;
    progress = λ x m. elim (e.origin x m) [ inr q ↦ inl q | inl v ↦ still x (i.progress x v) ];
  }
    where
      still :
          (x : String)
          → Queued x ((current, path) ∷ queue) ⊎ Expanded visited x
          → Queued x (r.1) ⊎ Expanded (r.0) x
      still x (inr (a, f)) = inr (a, λ n l. e.keeps n (f n l))
      still x (inl (p, inr m)) = inl (p, e.queue_keeps (x, p) m)
      still x (inl (p, inl d)) =
          let same : x ≡ current = ap (λ (y : Entry). y.0) d in
          inr (
            λ z. other (sym same ∙ z),
            λ n l. e.enters n (
                member-sort_by text_order (λ s. s) n (successors edges removed current)
                  (Link-successors edges removed current n
                    (subst (λ y. Link edges removed y n) same l))),
          )

  walk-visited :
      (visited : List String)
      → Inv visited []
      → {p : List String} {n : String} → IsWalk edges removed source p n
      → Member n visited
  walk-visited visited i single = i.begun
  walk-visited visited i (extend w l) = elim (i.progress _ (walk-visited visited i w)) [
    | inl (p, z) ↦ absurd z
    | inr (a, f) ↦ f _ l
  ]

  bfs_done :
      (fuel : ℕ) (visited : List String) (current : String) (path : List String)
      (queue : List Entry)
      → (current ≟ sink) ≡ true
      → bfs edges removed sink (suc fuel) visited ((current, path) ∷ queue) ≡ path_found path
  unfolding bfs
  bfs_done fuel visited current path queue h = rw (h, bfs)

  bfs_next :
      (fuel : ℕ) (visited : List String) (current : String) (path : List String)
      (queue : List Entry)
      → (current ≟ sink) ≡ false
      → bfs edges removed sink (suc fuel) visited ((current, path) ∷ queue)
        ≡ bfs edges removed sink fuel
            ((enqueue path (sorted current) visited queue).0)
            ((enqueue path (sorted current) visited queue).1)
  unfolding bfs
  bfs_next fuel visited current path queue h = rw (h, bfs)

  bfs-SearchVerdict :
      (fuel : ℕ) (visited : List String) (queue : List Entry)
      → Inv visited queue
      → length queue + missing (rights edges) visited ≤ fuel
      → SearchVerdict (bfs edges removed sink fuel visited queue)
  unfolding bfs
  bfs-SearchVerdict fuel visited [] i h = λ (a, (p, w)).
      elim (i.progress sink (walk-visited visited i w)) [
        | inl (q, z) ↦ absurd z
        | inr (b, f) ↦ b refl
      ]
  bfs-SearchVerdict zero visited (entry ∷ queue) i h = absurd (omega arith)
  bfs-SearchVerdict (suc fuel) visited ((current, path) ∷ queue) i h =
      elim (Bool-cases (current ≟ sink)) [
        | inl t ↦ subst SearchVerdict (sym (bfs_done fuel visited current path queue t)) (
            subst (IsWalk edges removed source path) (≟→eq current sink t)
              (i.walks current path (inl refl)))
        | inr f ↦
            let e = enqueue-Enqueued (rights edges) path (sorted current) visited queue (λ x m.
              let l =
                successors-Link edges removed current x
                  (sort_by-member text_order (λ s. s) x (successors edges removed current) m) in
              member-rights edges current x l.edge) in
            subst SearchVerdict (sym (bfs_next fuel visited current path queue f)) (
              bfs-SearchVerdict fuel ((enqueue path (sorted current) visited queue).0)
                ((enqueue path (sorted current) visited queue).1)
                (Inv-next current path visited queue i (λ z. cc (f, eq→≟ current sink z))
                  (enqueue path (sorted current) visited queue) e)
                (omega (arith, e.smaller, h)))
      ]

  -- A path that is found is a walk from the source to the sink along the edges, without the removed
  -- node; none is found only if there is no such walk; the search ends.
  pub shortest_path-SearchVerdict : SearchVerdict (shortest_path edges source sink removed)
  unfolding shortest_path
  shortest_path-SearchVerdict =
      elim (Bool-cases (is_removed removed source || is_removed removed sink)) [
        | inl t ↦ rw t (λ (a, (p, w)). removed_end a (IsWalk-kept a w) t)
        | inr f ↦ rw f (
            bfs-SearchVerdict (suc (length edges)) (source ∷ []) ((source, source ∷ []) ∷ [])
              (record {
                walks = λ x p m. elim m [ inl e ↦ first x p e | inr z ↦ absurd z ];
                begun = inl refl;
                progress = λ x m. elim m [
                  | inl e ↦ inl (source ∷ [], inl (ap (λ y. (y, source ∷ [])) e))
                  | inr z ↦ absurd z
                ];
              })
              (omega (arith, missing-le (rights edges) (source ∷ []), length-rights edges)))
      ]
    where
      removed_end :
          is_removed removed source ≡ false
          → is_removed removed sink ≡ false
          → (is_removed removed source || is_removed removed sink) ≡ true
          → ⊥
      removed_end a b t = ground arith

      first :
          (x : String) (p : List String)
          → ◌≡◌ {A = Entry} (x, p) (source, source ∷ [])
          → IsWalk edges removed source p x
      first x p e = subst (λ (y : Entry). IsWalk edges removed source (y.1) (y.0)) (sym e) single
