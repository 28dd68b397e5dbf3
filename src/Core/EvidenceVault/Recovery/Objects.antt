-- ===== src/Core/EvidenceVault/Recovery/Objects.antt =====
-- The object store while `_recover_locked` removes objects.
use auditspec.Prelude.{
  ℕ, String, Bool, true, false, Option, none, some, List, [], ◌∷◌, every, ◌≡◌, inl, inr, refl,
  Bool-cases, &&-left, &&-right, if◌then◌else◌,
}
use auditspec.Prelude.Text.{◌≟◌}
use auditspec.Prelude.Dict.{Dict, find, erase}
use auditspec.Prelude.Result.{ok}
use auditspec.Core.EvidenceVault.Checks.{is_sha256, sha256}
use auditspec.Core.EvidenceVault.Tables.{Tables}
use auditspec.Core.EvidenceVault.Replay.{EvidenceVault, ObjectEntry, file, not_a_file}
use auditspec.Core.EvidenceVault.Retention.{is_unreferenced}
use auditspec.Core.EvidenceVault.Recovery.{unlinked, unlink_if, sweep}

-- A file under its digest.
abbrev pub is_stored : String × ObjectEntry → Bool
is_stored (digest, file content) = is_sha256 digest
is_stored (digest, not_a_file) = false

pub every-erase :
    (key : String) (d : Dict ObjectEntry)
    → every is_stored d ≡ true
    → every is_stored (erase key d) ≡ true
every-erase key [] h = refl
every-erase key ((k, o) ∷ d) h =
    let rest = &&-right (is_stored (k, o)) (every is_stored d) h in
    elim (Bool-cases (k ≟ key)) [
      | inl e ↦ rw e rest
      | inr e ↦ rw (e, &&-left (is_stored (k, o)) (every is_stored d) h) (every-erase key d rest)
    ]

-- What is found is a file.
data FoundFile : Option ObjectEntry → Type 0 where
  missing : FoundFile none
  found : (content : List ℕ) → FoundFile (some (file content))

find-FoundFile :
    (key : String) (d : Dict ObjectEntry) → every is_stored d ≡ true → FoundFile (find key d)
find-FoundFile key [] h = missing
find-FoundFile key ((k, not_a_file) ∷ d) h = cc
find-FoundFile key ((k, file content) ∷ d) h = elim (Bool-cases (k ≟ key)) [
  | inl e ↦ rw e (found content)
  | inr e ↦ rw e (find-FoundFile key d (&&-right (is_sha256 k) (every is_stored d) h))
]

-- The object is gone, and the others are as they were.
pub record Unlinked (v after : EvidenceVault) : Type 0 where
  pub signer : after.signer ≡ v.signer
  pub stored : every is_stored after.objects ≡ true

unlinked-returns :
    (digest : String) (v : EvidenceVault) (o : Option ObjectEntry)
    → FoundFile o
    → every is_stored v.objects ≡ true
    → (after : EvidenceVault) × (unlinked digest v o ≡ ok after) × Unlinked v after
unlinked-returns digest v _ missing h = (v, refl, record { signer = refl; stored = h })
unlinked-returns digest v _ (found content) h = (
  record v { objects = erase digest v.objects },
  refl,
  record { signer = refl; stored = every-erase digest v.objects h },
)

pub unlink_if-returns :
    (b : Bool) (digest : String) (v : EvidenceVault)
    → every is_stored v.objects ≡ true
    → (after : EvidenceVault) × (unlink_if b digest v ≡ ok after) × Unlinked v after
unfolding unlink_if
unlink_if-returns true digest v h =
    unlinked-returns digest v (find digest v.objects) (find-FoundFile digest v.objects h) h
unlink_if-returns false digest v h = (v, refl, record { signer = refl; stored = h })

pub sweep-returns :
    (t : Tables) (d : Dict ObjectEntry)
    → every is_stored d ≡ true
    → (after : Dict ObjectEntry) × (sweep t d ≡ ok after)
unfolding sweep sha256
sweep-returns t [] h = ([], refl)
sweep-returns t ((k, not_a_file) ∷ d) h = cc
sweep-returns t ((k, file content) ∷ d) h =
    let (rest, e) = sweep-returns t d (&&-right (is_sha256 k) (every is_stored d) h) in
    (
      if is_unreferenced t k none then rest else (k, file content) ∷ rest,
      rw (&&-left (is_sha256 k) (every is_stored d) h, e) refl,
    )
