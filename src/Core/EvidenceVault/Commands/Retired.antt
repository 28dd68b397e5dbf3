-- ===== src/Core/EvidenceVault/Commands/Retired.antt =====
-- A retirement whose claim ids are identifiers is recorded.
use auditspec.Prelude.{
  not-eq-true, ℕ, String, Bool, true, false, not, Option, none, some, List, ◌≡◌, refl, every,
}
use auditspec.Prelude.Text.{◌≟◌}
use auditspec.Prelude.Dict.{Dict, find, has, insert_new, has-find}
use auditspec.Prelude.Result.{Error, ok, >>=-eq-ok, require, require-eq-ok, ok-injective}
use auditspec.Core.EvidenceVault.Records.{World, Component, Retirement, Event, component_retired}
use auditspec.Core.EvidenceVault.Checks.{is_identifier, instant}
use auditspec.Core.EvidenceVault.Tables.{Rooted, Tables}
use auditspec.Core.EvidenceVault.Chain.{rotate}
use auditspec.Core.EvidenceVault.Fold.{apply}
use auditspec.Core.EvidenceVault.Retirements.{
  check_claim_ids, check_retirement_schema, checked_v2, replacement_is_valid, is_replacement,
  validate_retirement,
}
use auditspec.Core.EvidenceVault.Retirements.Laws.{check_claim_ids-sorted_set}
use auditspec.Core.EvidenceVault.Replay.{EvidenceVault, replay}
use auditspec.Core.EvidenceVault.Archiving.{
  has_kind, the_component, check_replacement, certificate, retire_component,
}
use auditspec.Core.EvidenceVault.Commands.Recorded.{
  HonestSigner, same_journal, Course, insert_once-new, append_event-Course,
}

require-ok : (c : Bool) (raised : Error) → require c raised ≡ ok tt → c ≡ true
require-ok true raised h = refl
require-ok false raised h = cc

the_component-some :
    (world : World) (o : Option (Rooted Component)) {c : Component}
    → the_component world o ≡ ok c
    → (row : Rooted Component) × (o ≡ some row) × (row.body ≡ c)
the_component-some world none h = cc
the_component-some world (some row) h = (row, refl, ok-injective row.body _ h)

has_kind-is_replacement :
    (r ref : String) (o : Option (Rooted Component)) (row : Rooted Component)
    → has_kind row.body.kind o ≡ true
    → not (r ≟ ref) ≡ true
    → is_replacement r ref o (some row) ≡ true
has_kind-is_replacement r ref none row h d = cc
has_kind-is_replacement r ref (some other) row h d = rw (d, h) refl

-- The operation's checks of a replacement are those of the replay.
check_replacement-valid :
    (world : World) (t : Tables) (ref : String) (row : Rooted Component) (o : Option String)
    → find ref t.components ≡ some row
    → check_replacement world t ref row.body.kind o ≡ ok tt
    → replacement_is_valid t.components ref o ≡ true
unfolding check_replacement replacement_is_valid
check_replacement-valid world t ref row none f h = refl
check_replacement-valid world t ref row (some r) f h =
    let (h1, k1) = require-eq-ok (has r t.components) _ _ h in
    let (h2, k2) = require-eq-ok (not (r ≟ ref)) _ _ k1 in
    let (h3, k3) = require-eq-ok (not (has r t.retirements)) _ _ k2 in
    let h4 = require-ok (has_kind row.body.kind (find r t.components)) _ k3 in
    rw f (has_kind-is_replacement r ref (find r t.components) row h4 h2)

module _ (world : World) where
  validate_retirement-taken :
      (components : Dict (Rooted Component)) (body : Retirement)
      → check_retirement_schema world body ≡ ok tt
      → replacement_is_valid components body.component_ref body.replacement_ref ≡ true
      → body.existing_contracts_reverify_before_retirement ≡ true
      → check_claim_ids body.impacted_claim_ids ≡ ok tt
      → check_claim_ids body.future_unsupported_claim_ids ≡ ok tt
      → validate_retirement world components body ≡ ok tt
  unfolding validate_retirement
  validate_retirement-taken components body h1 h2 h3 h4 h5 = rw (h1, h2, h3, h4, h5) refl

  taken :
      (t : Tables) (body : Retirement) (root : String)
      → has body.component_ref t.components ≡ true
      → validate_retirement world t.components body ≡ ok tt
      → has body.component_ref t.retirements ≡ false
      → (after : Tables) × (apply world (component_retired body) root t ≡ ok after)
  unfolding apply
  taken t body root h1 h2 h3 = (
    record t {
      retirements =
          insert_new body.component_ref (record { body = body; event_root = root }) t.retirements;
    },
    rw
        (
          h1,
          h2,
          insert_once-new body.component_ref (record { body = body; event_root = root })
              t.retirements h3,
        )
        refl,
  )

  certificate-schema :
      (ref : String) (replacement : Option String) (impacted unsupported : List String)
      (component : Component) (at : String) {now : ℕ}
      → instant world at ≡ ok now
      → check_retirement_schema world
          (certificate world ref replacement impacted unsupported component at)
        ≡ ok tt
  unfolding check_retirement_schema checked_v2
  certificate-schema ref replacement impacted unsupported component at h = rw h refl

module _ (world : World) (v after : EvidenceVault) (e : Event)
    (honest : HonestSigner world v.signer) where
  pub retire_component-Course :
      (ref : String) (replacement : Option String) (impacted unsupported : List String)
      (at : String)
      → every is_identifier impacted ≡ true
      → every is_identifier unsupported ≡ true
      → retire_component world ref replacement impacted unsupported at v ≡ ok (e, after)
      → Course world v after
  unfolding retire_component rotate
  retire_component-Course ref replacement impacted unsupported at i u h =
      let (c1, h1, k1) = >>=-eq-ok (instant world at) _ h in
      let (s, hs, k2) = >>=-eq-ok (replay world v) _ k1 in
      let (component, h3, k3) =
        >>=-eq-ok (the_component world (find ref s.tables.components)) _ k2 in
      let (row, f, same) = the_component-some world (find ref s.tables.components) h3 in
      let (h4, k4) = require-eq-ok (not (has ref s.tables.retirements)) _ _ k3 in
      let (c5, h5, k5) =
        >>=-eq-ok (check_replacement world s.tables ref component.kind replacement) _ k4 in
      let valid = check_replacement-valid world s.tables ref row replacement f (rw same h5) in
      append_event-Course world v v after _ at e s hs (same_journal world v) honest k5 (record {
        permitted = tt;
        rotated = λ event. (_, refl);
        applied = λ root.
            taken world s.tables
              (certificate world ref replacement impacted unsupported component at) root
              (has-find ref s.tables.components f)
              (validate_retirement-taken world s.tables.components
                (certificate world ref replacement impacted unsupported component at)
                (certificate-schema world ref replacement impacted unsupported component at h1)
                valid refl (check_claim_ids-sorted_set impacted i)
                (check_claim_ids-sorted_set unsupported u))
              (not-eq-true (has ref s.tables.retirements) h4);
      })
