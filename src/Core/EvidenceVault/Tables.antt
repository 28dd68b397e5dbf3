-- ===== src/Core/EvidenceVault/Tables.antt =====
-- src/auditspec/core/evidence_vault.py: the tables of the replayed state, and `_insert_once`.
use auditspec.Prelude.{String, Bool, Option, List, [], if◌then◌else◌}
use auditspec.Prelude.Dict.{Dict, has, insert_new}
use auditspec.Prelude.Result.{Result, ok, err, vault_error}
use auditspec.Core.EvidenceVault.Records.{
  Component, Evidence, Bundle, DeletionIntent, Tombstone, Retirement,
}

-- A body with its event's root: `{"body": body, "event_root": ...}`.
pub record Rooted (A : Type 0) : Type 0 where
  pub body : A
  pub event_root : String

pub record HoldState : Type 0 where
  pub evidence_ids : List String
  pub released : Bool
  pub placed_event_root : String
  pub release_event_root : Option String

-- The dicts of the replayed state.
pub record Tables : Type 0 where
  pub components : Dict (Rooted Component)
  pub evidence : Dict (Rooted Evidence)
  pub bundles : Dict (Rooted Bundle)
  pub holds : Dict HoldState
  pub deletion_intents : Dict (Rooted DeletionIntent)
  pub deletions : Dict (Rooted Tombstone)
  pub retirements : Dict (Rooted Retirement)

abbrev pub no_tables : Tables
no_tables = record {
  components = [];
  evidence = [];
  bundles = [];
  holds = [];
  deletion_intents = [];
  deletions = [];
  retirements = [];
}

unfoldable pub insert_once : {A : Type 0} → String → A → Dict A → Result (Dict A)
insert_once key value target =
    if has key target
    then err (vault_error "append-only journal contains duplicate identity")
    else ok (insert_new key value target)
