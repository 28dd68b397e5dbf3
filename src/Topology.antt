-- ===== src/Topology.antt =====
-- src/auditspec/topology.py: the proof that a mediator stands on every path of a channel.
pub mod Walks
pub mod Search
pub mod Scanning
pub mod Pairs
pub mod Mediation
mod Tests
use auditspec.Prelude.{
  ℕ, zero, suc, String, Bool, true, false, not, ◌&&◌, ◌||◌, Option, none, some, List, [], ◌∷◌, ◌++◌,
  length, if◌then◌else◌,
}
use auditspec.Prelude.Text.{contains, text_order, ◌≟◌}
use auditspec.Prelude.Order.{sort_by}

abbrev pub Edge : Type 0
Edge = String × String

-- `node == removed`, where `removed` may be `None`.
abbrev pub is_removed : Option String → String → Bool
is_removed none node = false
is_removed (some removed) node = node ≟ removed

-- `adjacency.get(node, ())`
unfoldable pub successors : List Edge → Option String → String → List String
successors [] removed node = []
successors ((left, right) ∷ edges) removed node =
    let rest = successors edges removed node in
    if is_removed removed left || is_removed removed right
    then rest
    else if left ≟ node
    then right ∷ rest
    else rest

abbrev pub Entry : Type 0
Entry = String × List String

-- The loop over the sorted successors: the names visited and the queue after it.
unfoldable pub enqueue :
    List String → List String → List String → List Entry → List String × List Entry
enqueue path [] visited queue = (visited, queue)
enqueue path (next ∷ nodes) visited queue = elim (contains visited next) [
  | true ↦ enqueue path nodes visited queue
  | false ↦ enqueue path nodes (next ∷ visited) (queue ++ (next, path ++ next ∷ []) ∷ [])
]

pub data Found : Type 0 where
  path_found : List String → Found
  no_path : Found
  no_fuel : Found

-- `while queue:`
unfoldable pub bfs : List Edge → Option String → String → ℕ → List String → List Entry → Found
unfolding successors enqueue
bfs edges removed sink fuel visited [] = no_path
bfs edges removed sink zero visited (entry ∷ queue) = no_fuel
bfs edges removed sink (suc fuel) visited ((current, path) ∷ queue) = elim (current ≟ sink) [
  | true ↦ path_found path
  | false ↦
      let next =
        enqueue path (sort_by text_order (λ s. s) (successors edges removed current)) visited
          queue in
      bfs edges removed sink fuel (next.0) (next.1)
]

-- `_shortest_path`. Besides the source, a node enters the queue once, as the right end of an edge.
unfoldable pub shortest_path : List Edge → String → String → Option String → Found
unfolding bfs
shortest_path edges source sink removed =
    if is_removed removed source || is_removed removed sink
    then no_path
    else bfs edges removed sink (suc (length edges)) (source ∷ []) ((source, source ∷ []) ∷ [])

-- `edge in seen`
unfoldable pub seen_edge : List Edge → Edge → Bool
seen_edge [] edge = false
seen_edge ((a, b) ∷ edges) edge = (a ≟ edge.0 && b ≟ edge.1) || seen_edge edges edge

-- `tuple(dict.fromkeys(edges))`
unfoldable pub unique_edges : List Edge → List Edge → List Edge
unfolding seen_edge
unique_edges seen [] = []
unique_edges seen (edge ∷ edges) =
    let rest = unique_edges (edge ∷ seen) edges in if seen_edge seen edge then rest else edge ∷ rest

pub record MediationChannel : Type 0 where
  pub name : String
  pub sources : List String
  pub sinks : List String
  pub mediator : String
  pub description : String

pub record DeploymentTopology : Type 0 where
  pub nodes : List String
  pub edges : List Edge
  pub channels : List (String × MediationChannel)

-- `topology.channels.get(name)`
unfoldable pub channel_named : List (String × MediationChannel) → String → Option MediationChannel
channel_named [] name = none
channel_named ((k, channel) ∷ channels) name =
    if k ≟ name then some channel else channel_named channels name

pub data Reason : Type 0 where
  unknown_channel mediator_does_not_dominate : Reason
  unreachable : String → String → Reason

pub record MediationProof : Type 0 where
  pub channel : String
  pub valid : Bool
  pub mediator : Option String
  pub checked_pairs : List Edge
  pub bypass_witnesses : List (List String)
  pub reason : Option Reason

unfoldable pub pairs_to : String → List String → List Edge
pairs_to source [] = []
pairs_to source (sink ∷ sinks) = (source, sink) ∷ pairs_to source sinks

-- The pairs of the two loops.
unfoldable pub pairs_of : List String → List String → List Edge
unfolding pairs_to
pairs_of [] sinks = []
pairs_of (source ∷ sources) sinks = pairs_to source sinks ++ pairs_of sources sinks

abbrev pub mediates : String → String → String → Bool
mediates mediator source sink = source ≟ mediator || sink ≟ mediator

-- What the loops find: the first pair without a path, or the bypasses.
pub data Scan : Type 0 where
  cut : List Edge → String → String → Scan
  scanned : List Edge → List (List String) → Scan

abbrev pub with_bypass : Found → List (List String) → List (List String)
with_bypass (path_found path) bypasses = bypasses ++ path ∷ []
with_bypass no_path bypasses = bypasses
with_bypass no_fuel bypasses = bypasses

abbrev pub is_path : Found → Bool
is_path (path_found path) = true
is_path no_path = false
is_path no_fuel = false

unfoldable pub scan_pairs : List Edge → String → List Edge → List Edge → List (List String) → Scan
unfolding shortest_path
scan_pairs edges mediator [] checked bypasses = scanned checked bypasses
scan_pairs edges mediator ((source, sink) ∷ pairs) checked bypasses =
    elim (is_path (shortest_path edges source sink none)) [
      | false ↦ cut (checked ++ (source, sink) ∷ []) source sink
      | true ↦ elim (mediates mediator source sink) [
        | true ↦ scan_pairs edges mediator pairs (checked ++ (source, sink) ∷ []) bypasses
        | false ↦
            scan_pairs edges mediator pairs (checked ++ (source, sink) ∷ [])
              (with_bypass (shortest_path edges source sink (some mediator)) bypasses)
      ]
    ]

abbrev pub proof_of : String → String → Scan → MediationProof
proof_of name mediator (cut checked source sink) = record {
  channel = name;
  valid = false;
  mediator = some mediator;
  checked_pairs = checked;
  bypass_witnesses = [];
  reason = some (unreachable source sink);
}
proof_of name mediator (scanned checked []) = record {
  channel = name;
  valid = true;
  mediator = some mediator;
  checked_pairs = checked;
  bypass_witnesses = [];
  reason = none;
}
proof_of name mediator (scanned checked (bypass ∷ bypasses)) = record {
  channel = name;
  valid = false;
  mediator = some mediator;
  checked_pairs = checked;
  bypass_witnesses = bypass ∷ bypasses;
  reason = some mediator_does_not_dominate;
}

abbrev pub verify_channel : List Edge → String → Option MediationChannel → MediationProof
verify_channel edges name none = record {
  channel = name;
  valid = false;
  mediator = none;
  checked_pairs = [];
  bypass_witnesses = [];
  reason = some unknown_channel;
}
verify_channel edges name (some channel) =
    proof_of name channel.mediator
      (scan_pairs edges channel.mediator (pairs_of channel.sources channel.sinks) [] [])

unfoldable pub verify_mediation : DeploymentTopology → String → List Edge → MediationProof
unfolding unique_edges channel_named pairs_of scan_pairs
verify_mediation topology name bypass_edges =
    verify_channel (unique_edges [] (topology.edges ++ bypass_edges)) name
      (channel_named topology.channels name)
