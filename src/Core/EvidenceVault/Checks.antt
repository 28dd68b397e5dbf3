-- ===== src/Core/EvidenceVault/Checks.antt =====
-- src/auditspec/core/evidence_vault.py: the checks of texts that the journal holds.
use Prim.Native.Char.{code}
use auditspec.Prelude.{
  ℕ, String, Bool, false, ◌&&◌, ◌||◌, Option, none, some, List, [], ◌∷◌, ◌==◌, leb, every, length,
  if◌then◌else◌,
}
use auditspec.Prelude.Text.{codes}
use auditspec.Prelude.Result.{Result, ok, err, vault_error}
use auditspec.Core.EvidenceVault.Records.{World}

-- A code point from `low` to `high`.
abbrev between : ℕ → ℕ → ℕ → Bool
between low high c = leb low c && leb c high

-- [A-Za-z0-9]
abbrev is_alnum : ℕ → Bool
is_alnum c = between 48 57 c || between 65 90 c || between 97 122 c

-- [A-Za-z0-9_.:-]
abbrev is_word : ℕ → Bool
is_word c = is_alnum c || c == 95 || c == 46 || c == 58 || c == 45

abbrev is_id : List ℕ → Bool
is_id [] = false
is_id (c ∷ cs) = is_alnum c && every is_word cs && leb (length cs) 254

unfoldable pub is_identifier : String → Bool
is_identifier s = is_id (codes s)

unfoldable pub vault_identifier : String → Result String
unfolding is_identifier
vault_identifier value = if is_identifier value then ok value else err (vault_error "is invalid")

-- [0-9a-f]
abbrev is_hex : ℕ → Bool
is_hex c = between 48 57 c || between 97 102 c

unfoldable pub is_sha256 : String → Bool
is_sha256 s = every is_hex (codes s) && length (codes s) == 64

unfoldable pub sha256 : String → Result String
unfolding is_sha256
sha256 value =
    if is_sha256 value then ok value else err (vault_error "is not a lowercase SHA-256 digest")

-- [a-z0-9.+-]
abbrev is_media : ℕ → Bool
is_media c = between 97 122 c || between 48 57 c || c == 46 || c == 43 || c == 45

-- The second class is reached at the first slash.
abbrev is_subtype : List ℕ → Bool
is_subtype [] = false
is_subtype (c ∷ cs) = every is_media (c ∷ cs)

abbrev is_type_rest : List ℕ → Bool
is_type_rest [] = false
is_type_rest (c ∷ cs) = if c == 47 then is_subtype cs else is_media c && is_type_rest cs

abbrev is_media_type : List ℕ → Bool
is_media_type [] = false
is_media_type (c ∷ cs) = is_media c && is_type_rest cs

unfoldable pub media_type : String → Result String
media_type value =
    if is_media_type (codes value) && leb (length (codes value)) 127
    then ok value
    else err (vault_error "media type is invalid")

-- `value[:-1]` of a text that ends in Z.
abbrev pub without_z : String → Option String
without_z String.[] = none
without_z (String.◌∷◌ c String.[]) = if code c == 90 then some String.[] else none
without_z (String.◌∷◌ c (String.◌∷◌ d s)) = elim (without_z (String.◌∷◌ d s)) [
  | none ↦ none
  | some t ↦ some (String.◌∷◌ c t)
]

module _ (world : World) where
  unfoldable pub public_key : String → Result String
  unfolding is_sha256
  public_key value =
      if is_sha256 value && world.is_point value
      then ok value
      else err (vault_error "is not a raw Ed25519 public key")

  abbrev parsed : Option ℕ → Result ℕ
  parsed none = err (vault_error "timestamp is invalid")
  parsed (some at) = ok at

  abbrev stripped : Option String → Result ℕ
  stripped none = err (vault_error "timestamp must be an RFC3339 UTC string")
  stripped (some prefix) = parsed (world.from_iso prefix)

  unfoldable pub instant : String → Result ℕ
  instant value = stripped (without_z value)
