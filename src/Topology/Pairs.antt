-- ===== src/Topology/Pairs.antt =====
-- The edges without repetition, and the pairs of sources and sinks.
use mathlib.Core.Path.{subst}
use auditspec.Prelude.{
  String, true, ◌&&◌, List, [], ◌∷◌, ◌≡◌, refl, sym, ap, ◌⊎◌, inl, inr, ◌↔◌, arith, Member,
  member-append_left, member-append_right, append-member, Bool-cases, &&-left, &&-right,
}
use auditspec.Prelude.Text.{◌≟◌, ≟→eq}
use auditspec.Topology.{Edge, seen_edge, unique_edges, pairs_to, pairs_of}

seen_edge-member : (seen : List Edge) (e : Edge) → seen_edge seen e ≡ true → Member e seen
unfolding seen_edge
seen_edge-member [] e h = absurd (ground arith)
seen_edge-member ((a, b) ∷ seen) (x, y) h = elim (Bool-cases (a ≟ x && b ≟ y)) [
  | inr f ↦ inr (seen_edge-member seen (x, y) (rw f at h))
  | inl t ↦ inl (rw (≟→eq a x (&&-left _ _ t), ≟→eq b y (&&-right (a ≟ x) _ t)) refl)
]

pub member-unique :
    (seen edges : List Edge) (e : Edge)
    → Member e edges
    → Member e seen ⊎ Member e (unique_edges seen edges)
unfolding unique_edges
member-unique seen [] e m = absurd m
member-unique seen (edge ∷ edges) e m = elim (Bool-cases (seen_edge seen edge)) [
  | inl t ↦ rw t (elim m [
    | inl d ↦ inl (subst (λ x. Member x seen) (sym d) (seen_edge-member seen edge t))
    | inr r ↦ elim (member-unique (edge ∷ seen) edges e r) [
      | inl (inl d) ↦ inl (subst (λ x. Member x seen) (sym d) (seen_edge-member seen edge t))
      | inl (inr s) ↦ inl s
      | inr u ↦ inr u
    ]
  ])
  | inr f ↦ rw f (elim m [
    | inl d ↦ inr (inl d)
    | inr r ↦ elim (member-unique (edge ∷ seen) edges e r) [
      | inl (inl d) ↦ inr (inl d)
      | inl (inr s) ↦ inl s
      | inr u ↦ inr (inr u)
    ]
  ])
]

pairs_to-member :
    (source : String) (sinks : List String) (a b : String)
    → Member (a, b) (pairs_to source sinks)
    → (a ≡ source) × Member b sinks
unfolding pairs_to
pairs_to-member source [] a b m = absurd m
pairs_to-member source (sink ∷ sinks) a b (inl e) =
    (ap (λ (x : Edge). x.0) e, inl (ap (λ (x : Edge). x.1) e))
pairs_to-member source (sink ∷ sinks) a b (inr m) =
    let (d, n) = pairs_to-member source sinks a b m in (d, inr n)

member-pairs_to :
    (source : String) (sinks : List String) (b : String)
    → Member b sinks
    → Member (source, b) (pairs_to source sinks)
unfolding pairs_to
member-pairs_to source [] b m = absurd m
member-pairs_to source (sink ∷ sinks) b (inl e) = inl (ap (λ x. (source, x)) e)
member-pairs_to source (sink ∷ sinks) b (inr m) = inr (member-pairs_to source sinks b m)

pub pairs_of_iff :
    (sources sinks : List String) (a b : String)
    → Member (a, b) (pairs_of sources sinks) ↔ (Member a sources × Member b sinks)
unfolding pairs_of
pairs_of_iff [] sinks a b = (λ m. absurd m, λ (m, n). absurd m)
pairs_of_iff (source ∷ sources) sinks a b = (
  λ m. elim (append-member (a, b) (pairs_to source sinks) (pairs_of sources sinks) m) [
    | inl l ↦ let (e, n) = pairs_to-member source sinks a b l in (inl e, n)
    | inr r ↦ let (n, k) = (pairs_of_iff sources sinks a b).0 r in (inr n, k)
  ],
  λ (m, n). elim m [
    | inl e ↦
        member-append_left (a, b) (pairs_to source sinks) (pairs_of sources sinks)
          (subst (λ x. Member (x, b) (pairs_to source sinks)) (sym e)
            (member-pairs_to source sinks b n))
    | inr r ↦
        member-append_right (a, b) (pairs_to source sinks) (pairs_of sources sinks)
          ((pairs_of_iff sources sinks a b).1 (r, n))
  ],
)
