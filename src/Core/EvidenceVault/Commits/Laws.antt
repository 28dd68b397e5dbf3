-- ===== src/Core/EvidenceVault/Commits/Laws.antt =====
-- The tombstone of an intent is accepted as its commit.
use auditspec.Prelude.{String, Bool, true, false, Option, none, some, List, [], ◌∷◌, ◌≡◌, refl}
use auditspec.Prelude.Text.{≟-refl}
use auditspec.Core.EvidenceVault.Records.{Tombstone}
use auditspec.Core.EvidenceVault.Retirements.{same_texts}
use auditspec.Core.EvidenceVault.Commits.{
  same_flag, same_text_option, same_texts_option, same_tombstone,
}

pub same_texts_refl : (xs : List String) → same_texts xs xs ≡ true
same_texts_refl [] = refl
same_texts_refl (x ∷ xs) = rw (≟-refl x, same_texts_refl xs) refl

same_flag_refl : (b : Bool) → same_flag b b ≡ true
same_flag_refl true = refl
same_flag_refl false = refl

same_text_option_refl : (o : Option String) → same_text_option o o ≡ true
same_text_option_refl none = refl
same_text_option_refl (some s) = ≟-refl s

same_texts_option_refl : (o : Option (List String)) → same_texts_option o o ≡ true
same_texts_option_refl none = refl
same_texts_option_refl (some s) = same_texts_refl s

pub same_tombstone_refl : (t : Tombstone) → same_tombstone t t ≡ true
unfolding same_tombstone
same_tombstone_refl t =
    simp (≟-refl, same_flag_refl, same_texts_refl, same_text_option_refl, same_texts_option_refl)
