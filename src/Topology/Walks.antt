-- ===== src/Topology/Walks.antt =====
-- Walks along the edges of a topology, some node removed.
use mathlib.Core.Path.{subst}
use auditspec.Prelude.{
  String, Bool, true, false, ◌||◌, Option, none, some, List, [], ◌∷◌, ◌++◌, ◌≡◌, ◌≢◌, refl, sym, ap,
  inl, inr, arith, Member, member-append_left, member-append_right, append-member, Bool-cases,
  if◌then◌else◌,
}
use auditspec.Prelude.Text.{◌≟◌, ≟→eq, eq→≟}
use auditspec.Topology.{Edge, is_removed, successors}

-- An edge between nodes that are not removed.
pub record Link (edges : List Edge) (removed : Option String) (m n : String) : Type 0 where
  pub edge : Member (m, n) edges
  pub left : is_removed removed m ≡ false
  pub right : is_removed removed n ≡ false

-- A walk from `source` to the last node of the list.
pub data IsWalk (edges : List Edge) (removed : Option String) (source : String)
    : List String → String → Type 0 where
  single : IsWalk edges removed source (source ∷ []) source
  extend :
      {p : List String} {m n : String}
      → IsWalk edges removed source p m
      → Link edges removed m n
      → IsWalk edges removed source (p ++ n ∷ []) n

-- A walk whose nodes are not removed.
abbrev pub Connected : List Edge → Option String → String → String → Type 0
Connected edges removed source n =
    (is_removed removed source ≡ false) × ((p : List String) × IsWalk edges removed source p n)

pub IsWalk-kept :
    {edges : List Edge} {removed : Option String} {source : String} {p : List String} {n : String}
    → is_removed removed source ≡ false
    → IsWalk edges removed source p n
    → is_removed removed n ≡ false
IsWalk-kept h single = h
IsWalk-kept h (extend w l) = l.right

unfold_removed :
    (removed : Option String) (m n : String)
    → (is_removed removed m || is_removed removed n) ≡ false
    → (is_removed removed m ≡ false) × (is_removed removed n ≡ false)
unfold_removed removed m n h = ground arith

skipped :
    (a b : String) (edges : List Edge) (removed : Option String) (node : String)
    → (is_removed removed a || is_removed removed b) ≡ true
    → successors ((a, b) ∷ edges) removed node ≡ successors edges removed node
unfolding successors
skipped a b edges removed node h =
    ap
      (λ (t : Bool).
        if t
        then successors edges removed node
        else (if a ≟ node
            then b ∷ successors edges removed node
            else successors edges removed node))
      h

looked :
    (a b : String) (edges : List Edge) (removed : Option String) (node : String)
    → (is_removed removed a || is_removed removed b) ≡ false
    → successors ((a, b) ∷ edges) removed node
      ≡ (if a ≟ node then b ∷ successors edges removed node else successors edges removed node)
unfolding successors
looked a b edges removed node h =
    ap
      (λ (t : Bool).
        if t
        then successors edges removed node
        else (if a ≟ node
            then b ∷ successors edges removed node
            else successors edges removed node))
      h

Link-more :
    {edges : List Edge} {removed : Option String} {m n : String} (e : Edge)
    → Link edges removed m n
    → Link (e ∷ edges) removed m n
Link-more e l = record { edge = inr l.edge; left = l.left; right = l.right }

pub successors-Link :
    (edges : List Edge) (removed : Option String) (node n : String)
    → Member n (successors edges removed node)
    → Link edges removed node n
unfolding successors
successors-Link [] removed node n m = absurd m
successors-Link ((a, b) ∷ edges) removed node n m =
    elim (Bool-cases (is_removed removed a || is_removed removed b)) [
      | inl t ↦
          Link-more (a, b)
            (successors-Link edges removed node n
              (subst (Member n) (skipped a b edges removed node t) m))
      | inr f ↦
          let m' = subst (Member n) (looked a b edges removed node f) m in
          elim (Bool-cases (a ≟ node)) [
            | inr o ↦ Link-more (a, b) (successors-Link edges removed node n (rw o at m'))
            | inl s ↦ elim (rw s at m') [
              | inr r ↦ Link-more (a, b) (successors-Link edges removed node n r)
              | inl e ↦
                  let (x, y) = unfold_removed removed a b f in
                  let same = ≟→eq a node s in
                  record {
                    edge = inl (rw (← same, e) refl);
                    left = subst (λ z. is_removed removed z ≡ false) same x;
                    right = subst (λ z. is_removed removed z ≡ false) (sym e) y;
                  }
            ]
          ]
    ]

pub Link-successors :
    (edges : List Edge) (removed : Option String) (node n : String)
    → Link edges removed node n
    → Member n (successors edges removed node)
Link-successors [] removed node n l = absurd l.edge
Link-successors ((a, b) ∷ edges) removed node n l = elim l.edge [
  | inl e ↦
      let same : node ≡ a = ap (λ (x : Edge). x.0) e in
      let target : n ≡ b = ap (λ (x : Edge). x.1) e in
      let kept : (is_removed removed a || is_removed removed b) ≡ false =
        rw (← same, ← target, l.left, l.right) refl in
      subst (Member n) (sym (looked a b edges removed node kept))
        (rw (eq→≟ a node (sym same)) (inl target))
  | inr r ↦
      let rest =
        Link-successors edges removed node n
          (record { edge = r; left = l.left; right = l.right }) in
      elim (Bool-cases (is_removed removed a || is_removed removed b)) [
        | inl t ↦ subst (Member n) (sym (skipped a b edges removed node t)) rest
        | inr f ↦
            subst (Member n) (sym (looked a b edges removed node f))
              (elim (Bool-cases (a ≟ node)) [ inl s ↦ rw s (inr rest) | inr o ↦ rw o rest ])
      ]
]

pub IsWalk-source :
    {edges : List Edge} {removed : Option String} {source : String} {p : List String} {n : String}
    → IsWalk edges removed source p n
    → Member source p
IsWalk-source single = inl refl
IsWalk-source (extend {p} {n} w l) = member-append_left _ p (n ∷ []) (IsWalk-source w)

pub IsWalk-last :
    {edges : List Edge} {removed : Option String} {source : String} {p : List String} {n : String}
    → IsWalk edges removed source p n
    → Member n p
IsWalk-last single = inl refl
IsWalk-last (extend {p} {n} w l) = member-append_right n p (n ∷ []) (inl refl)

pub IsWalk-map :
    {edges others : List Edge} {removed : Option String} {source : String} {p : List String}
    {n : String}
    → ((e : Edge) → Member e edges → Member e others)
    → IsWalk edges removed source p n
    → IsWalk others removed source p n
IsWalk-map h single = single
IsWalk-map h (extend w l) =
    extend (IsWalk-map h w) (record { edge = h _ l.edge; left = l.left; right = l.right })

differs : (r x : String) → x ≢ r → (x ≟ r) ≡ false
differs r x h = elim (Bool-cases (x ≟ r)) [ inl t ↦ absurd (h (≟→eq x r t)) | inr f ↦ f ]

-- A walk that does not meet a node is a walk without it.
pub IsWalk-avoid :
    {edges : List Edge} {source r : String} {p : List String} {n : String}
    → ¬ Member r p
    → IsWalk edges none source p n
    → IsWalk edges (some r) source p n
IsWalk-avoid h single = single
IsWalk-avoid {r} h (extend {p} {m} {n} w l) =
    let before = λ (i : Member r p). h (member-append_left r p (n ∷ []) i) in
    extend (IsWalk-avoid before w) (record {
      edge = l.edge;
      left = differs r m (λ e. before (subst (λ x. Member x p) e (IsWalk-last w)));
      right = differs r n (λ e. h (member-append_right r p (n ∷ []) (inl (sym e))));
    })

-- A walk without a node does not meet it.
pub avoid-IsWalk :
    {edges : List Edge} {source r : String} {p : List String} {n : String}
    → (source ≟ r) ≡ false
    → IsWalk edges (some r) source p n
    → IsWalk edges none source p n × ¬ Member r p
avoid-IsWalk {source} {r} h single =
    (single, λ m. elim m [ inl e ↦ cc (h, eq→≟ source r (sym e)) | inr z ↦ z ])
avoid-IsWalk {r} h (extend {p} {m} {n} w l) =
    let (w', far) = avoid-IsWalk h w in
    (
      extend w' (record { edge = l.edge; left = refl; right = refl }),
      λ i. elim (append-member r p (n ∷ []) i) [
        | inl j ↦ far j
        | inr (inr z) ↦ z
        | inr (inl e) ↦ cc (l.right, eq→≟ n r (sym e))
      ],
    )
