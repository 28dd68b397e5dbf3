-- ===== src/Topology/Tests.antt =====
-- A gateway between an agent and a bank, and the theorems at that topology.
use auditspec.Prelude.{String, true, none, some, List, [], ◌∷◌, ◌++◌, ◌≡◌, refl, inl, inr, Member}
use auditspec.Topology.{
  MediationChannel, DeploymentTopology, channel_named, unique_edges, verify_mediation,
  shortest_path, path_found,
}
use auditspec.Topology.Walks.{IsWalk, single, extend}
use auditspec.Topology.Search.{SearchVerdict, shortest_path-SearchVerdict}
use auditspec.Topology.Mediation.{
  MediationVerdict, verify_mediation-MediationVerdict, valid-dominates,
}

abbrev channel : MediationChannel
channel = record {
  name = "pay";
  sources = "agent" ∷ [];
  sinks = "bank" ∷ [];
  mediator = "gateway";
  description = "";
}

abbrev deployed : DeploymentTopology
deployed = record {
  nodes = "agent" ∷ "bank" ∷ "gateway" ∷ [];
  edges = ("agent", "gateway") ∷ ("gateway", "bank") ∷ [];
  channels = ("pay", channel) ∷ [];
}

abbrev walk : List String
walk = "agent" ∷ "gateway" ∷ "bank" ∷ []

allowed : IsWalk (deployed.edges ++ []) none "agent" walk "bank"
allowed =
    extend (extend single (record { edge = inl refl; left = refl; right = refl }))
      (record { edge = inr (inl refl); left = refl; right = refl })

valid : (verify_mediation deployed "pay" []).valid ≡ true
unfolding verify_mediation
valid = refl

found : channel_named deployed.channels "pay" ≡ some channel
unfolding channel_named
found = refl

bypassed :
    shortest_path (("agent", "bank") ∷ deployed.edges) "agent" "bank" (some "gateway")
    ≡ path_found ("agent" ∷ "bank" ∷ [])
unfolding shortest_path
bypassed = refl

shortest_path-SearchVerdict_example :
    SearchVerdict deployed.edges none "agent" "bank"
      (shortest_path deployed.edges "agent" "bank" none)
shortest_path-SearchVerdict_example = shortest_path-SearchVerdict deployed.edges none "agent" "bank"

verify_mediation-MediationVerdict_example :
    MediationVerdict
      (unique_edges [] (deployed.edges ++ ("agent", "bank") ∷ []))
      (channel_named deployed.channels "pay")
      (verify_mediation deployed "pay" (("agent", "bank") ∷ []))
verify_mediation-MediationVerdict_example =
    verify_mediation-MediationVerdict deployed "pay" (("agent", "bank") ∷ [])

valid-dominates_example : Member "gateway" walk
valid-dominates_example =
    valid-dominates deployed "pay" [] channel found valid "agent" "bank" walk (inl refl) (inl refl)
      allowed
