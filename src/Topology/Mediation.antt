-- ===== src/Topology/Mediation.antt =====
-- What a mediation proof says of the walks of its channel.
use mathlib.Core.Path.{subst}
use auditspec.Prelude.{
  String, Bool, true, false, Option, none, some, List, [], ◌++◌, ◌≡◌, refl, inl, inr, Member,
}
use auditspec.Topology.{
  Edge, unique_edges, MediationChannel, DeploymentTopology, channel_named, Reason, unknown_channel,
  unreachable, mediator_does_not_dominate, MediationProof, pairs_of, verify_channel,
  verify_mediation,
}
use auditspec.Topology.Walks.{IsWalk, IsWalk-map}
use auditspec.Topology.Scanning.{ProofVerdict, scan_pairs-ScanVerdict, proof_of-ProofVerdict}
use auditspec.Topology.Pairs.{member-unique, pairs_of_iff}

-- The channel is unknown, or the verdict is right of its pairs.
abbrev pub MediationVerdict : List Edge → Option MediationChannel → MediationProof → Type 0
MediationVerdict edges none proof = (proof.valid ≡ false) × (proof.reason ≡ some unknown_channel)
MediationVerdict edges (some channel) proof =
    ProofVerdict edges channel.mediator (pairs_of channel.sources channel.sinks) proof.valid
      proof.bypass_witnesses proof.reason

verify_channel-MediationVerdict :
    (edges : List Edge) (name : String) (o : Option MediationChannel)
    → MediationVerdict edges o (verify_channel edges name o)
verify_channel-MediationVerdict edges name none = (refl, refl)
verify_channel-MediationVerdict edges name (some channel) =
    proof_of-ProofVerdict edges channel.mediator name (pairs_of channel.sources channel.sinks) _
      (scan_pairs-ScanVerdict edges channel.mediator (pairs_of channel.sources channel.sinks) [] [])

-- A mediation proof refuses an unknown channel. Over the different edges of the topology and the
-- bypass edges, a proof without a reason is valid and each source reaches each sink, by walks that
-- all meet the mediator; the other proofs are invalid and name a pair that is not connected, or
-- bypasses, each a walk from a source to a sink that does not meet the mediator.
pub verify_mediation-MediationVerdict :
    (topology : DeploymentTopology) (name : String) (bypass_edges : List Edge)
    → MediationVerdict
        (unique_edges [] (topology.edges ++ bypass_edges))
        (channel_named topology.channels name)
        (verify_mediation topology name bypass_edges)
unfolding verify_mediation
verify_mediation-MediationVerdict topology name bypass_edges =
    verify_channel-MediationVerdict (unique_edges [] (topology.edges ++ bypass_edges)) name
      (channel_named topology.channels name)

-- Every walk that the declared edges and the bypass edges allow from a source to a sink meets the
-- mediator of a channel whose proof is valid.
pub valid-dominates :
    (topology : DeploymentTopology) (name : String) (bypass_edges : List Edge)
    (channel : MediationChannel)
    → channel_named topology.channels name ≡ some channel
    → (verify_mediation topology name bypass_edges).valid ≡ true
    → (source sink : String) (p : List String) → Member source channel.sources
    → Member sink channel.sinks
    → IsWalk (topology.edges ++ bypass_edges) none source p sink
    → Member channel.mediator p
valid-dominates topology name bypass_edges channel found valid source sink p m n w =
    let v =
      subst
        (λ o.
          MediationVerdict (unique_edges [] (topology.edges ++ bypass_edges)) o
            (verify_mediation topology name bypass_edges))
        found (verify_mediation-MediationVerdict topology name bypass_edges) in
    from (verify_mediation topology name bypass_edges).valid
      (verify_mediation topology name bypass_edges).bypass_witnesses
      (verify_mediation topology name bypass_edges).reason valid v
  where
    from :
        (b : Bool) (bypasses : List (List String)) (r : Option Reason)
        → b ≡ true
        → ProofVerdict
            (unique_edges [] (topology.edges ++ bypass_edges))
            channel.mediator
            (pairs_of channel.sources channel.sinks)
            b
            bypasses
            r
        → Member channel.mediator p
    from b bypasses none e (_, all) =
        (all source sink ((pairs_of_iff channel.sources channel.sinks source sink).1 (m, n))).1 p (
          IsWalk-map
            (λ edge i. elim (member-unique [] (topology.edges ++ bypass_edges) edge i) [
              | inl z ↦ absurd z
              | inr u ↦ u
            ])
            w)
    from b bypasses (some unknown_channel) e v = absurd v
    from b bypasses (some mediator_does_not_dominate) e (f, _, _) = absurd (cc (e, f))
    from b bypasses (some (unreachable x y)) e (f, _, _) = absurd (cc (e, f))
