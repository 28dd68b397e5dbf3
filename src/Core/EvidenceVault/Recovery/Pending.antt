-- ===== src/Core/EvidenceVault/Recovery/Pending.antt =====
-- The deletions that a replayed state still owes.
use mathlib.Core.Path.{subst}
use auditspec.Prelude.{
  String, Bool, true, false, not, some, [], ◌∷◌, keep, ◌≡◌, ◌⊎◌, inl, inr, refl, ◌∙◌, ap,
  Bool-cases,
}
use auditspec.Prelude.Text.{◌≟◌, ≟→eq, ≟-refl, ≟-sym}
use auditspec.Prelude.Dict.{Dict, is_some, find, has, has-find, find-has}
use auditspec.Prelude.Dict.Laws.{find-keep, find-keep_out}
use auditspec.Core.EvidenceVault.Records.{DeletionIntent}
use auditspec.Core.EvidenceVault.Tables.{Rooted, Tables}
use auditspec.Core.EvidenceVault.Fold.Keyed.{IsKeyed, WellKeyed}
use auditspec.Core.EvidenceVault.Replay.{pending_deletions}

abbrev pub Intents : Type 0
Intents = Dict (Rooted DeletionIntent)

-- An intent of the state, under its key, about evidence that is not deleted.
pub record IsOwed (t : Tables) (k : String) (r : Rooted DeletionIntent) : Type 0 where
  pub keyed : r.body.evidence_id ≡ k
  pub known : has k t.evidence ≡ true
  pub found : find k t.deletion_intents ≡ some r
  pub not_deleted : has k t.deletions ≡ false

abbrev pub Owed : Tables → Intents → Type 0
Owed t [] = Unit
Owed t ((k, r) ∷ d) = IsOwed t k r × (has k d ≡ false) × Owed t d

-- Another deletion changes nothing for the intents of other evidence.
pub Owed-kept :
    (t after : Tables) (key : String) (d : Intents)
    → after.evidence ≡ t.evidence
    → after.deletion_intents ≡ t.deletion_intents
    → ((other : String) → (key ≟ other) ≡ false → has other after.deletions ≡ has other t.deletions)
    → has key d ≡ false
    → Owed t d
    → Owed after d
Owed-kept t after key [] e i f h o = tt
Owed-kept t after key ((k, r) ∷ d) e i f h (p, n, o) = elim (Bool-cases (k ≟ key)) [
  | inl c ↦ cc (rw c at h)
  | inr c ↦ (
    record {
      keyed = p.keyed;
      known = ap (has k) e ∙ p.known;
      found = ap (find k) i ∙ p.found;
      not_deleted = f k (≟-sym key k ∙ c) ∙ p.not_deleted;
    },
    n,
    Owed-kept t after key d e i f (rw c at h) o,
  )
]

has-keep-false :
    (test : String → Bool) (key : String) (d : Intents)
    → has key d ≡ false
    → has key (keep (λ p. test p.0) d) ≡ false
has-keep-false test key d h = elim (Bool-cases (test key)) [
  | inl c ↦ ap is_some (find-keep test key d c) ∙ h
  | inr c ↦ ap is_some (find-keep_out test key d c)
]

find-tail :
    (k j : String) (q r : Rooted DeletionIntent) (d : Intents)
    → has k d ≡ false
    → find j d ≡ some r
    → find j ((k, q) ∷ d) ≡ some r
find-tail k j q r d n h = elim (Bool-cases (k ≟ j)) [
  | inl c ↦ let m = has-find j d h in cc (subst (λ s. has s d ≡ false) (≟→eq k j c) n)
  | inr c ↦ rw c h
]

-- The intents without a deletion are owed.
keep-Owed :
    (t : Tables) (d : Intents)
    → IsKeyed d
    → ((k : String) → has k d ≡ true → has k t.evidence ≡ true)
    → ((k : String) (r : Rooted DeletionIntent)
        → find k d ≡ some r
        → find k t.deletion_intents ≡ some r)
    → Owed t (keep (λ p. not (has p.0 t.deletions)) d)
keep-Owed t [] w known found = tt
keep-Owed t ((k, r) ∷ d) (e, n, w) known found =
    let head : find k ((k, r) ∷ d) ≡ some r = rw (≟-refl k) refl in
    let rest =
      keep-Owed t d w
        (λ j h.
          let (q, f) = find-has j d h in
          known j (has-find j ((k, r) ∷ d) (find-tail k j r q d n f)))
        (λ j q f. found j q (find-tail k j r q d n f)) in
    elim (Bool-cases (has k t.deletions)) [
      | inl c ↦ rw c rest
      | inr c ↦ rw c (
        record {
          keyed = e;
          known = known k (has-find k ((k, r) ∷ d) head);
          found = found k r head;
          not_deleted = c;
        },
        has-keep-false (λ j. not (has j t.deletions)) k d n,
        rest,
      )
    ]

pub pending_deletions-Owed : (t : Tables) → WellKeyed t → Owed t (pending_deletions t)
unfolding pending_deletions
pending_deletions-Owed t w = keep-Owed t t.deletion_intents w.keyed w.known (λ k r f. f)

-- Nothing is pending once every intent's evidence is deleted.
keep-nil :
    (test : String → Bool) (d : Intents)
    → ((k : String) → has k d ≡ true → test k ≡ false)
    → keep (λ p. test p.0) d ≡ []
keep-nil test [] h = refl
keep-nil test ((k, r) ∷ d) h = rw (h k (rw (≟-refl k) refl)) (
    keep-nil test d (λ j i. h j (elim (Bool-cases (k ≟ j)) [ inl c ↦ rw c refl | inr c ↦ rw c i ])))

pub pending_deletions-nil :
    (t : Tables)
    → ((k : String) → has k t.deletion_intents ≡ true → has k t.deletions ≡ true)
    → pending_deletions t ≡ []
unfolding pending_deletions
pending_deletions-nil t h =
    keep-nil (λ k. not (has k t.deletions)) t.deletion_intents (λ k i. rw (h k i) refl)

pub has-pending_or :
    (t : Tables) (k : String)
    → has k t.deletion_intents ≡ true
    → (has k t.deletions ≡ true) ⊎ (has k (pending_deletions t) ≡ true)
unfolding pending_deletions
has-pending_or t k i = elim (Bool-cases (has k t.deletions)) [
  | inl d ↦ inl d
  | inr d ↦
      inr
        (ap is_some (find-keep (λ j. not (has j t.deletions)) k t.deletion_intents (rw d refl)) ∙ i)
]
