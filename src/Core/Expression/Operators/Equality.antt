-- ===== src/Core/Expression/Operators/Equality.antt =====
-- Equal types have the same values.
use auditspec.Prelude.{true, ◌≡◌, refl, ap}
use auditspec.Prelude.Text.{≟→eq}
use auditspec.Core.Wire.{TypeNode, scalar, optional, list, set, map, record_of}
use auditspec.Core.Expression.Datum.{
  Datum, nothing, boolean, integer, text, sequence, frozenset, bytes, decimal, mapping, Data, empty,
  more, has_type, all_have_type,
}
use auditspec.Core.Expression.Operators.{same_type}

mutual
  unfolding same_type has_type

  pub same_type-has_type :
      (a b : TypeNode) (d : Datum) → same_type a b ≡ true → has_type d a ≡ has_type d b
  same_type-has_type (scalar s) (scalar t) d e = ap (λ x. has_type d (scalar x)) (≟→eq s t e)
  same_type-has_type (optional a) (optional b) nothing e = refl
  same_type-has_type (optional a) (optional b) (boolean x) e = same_type-has_type a b (boolean x) e
  same_type-has_type (optional a) (optional b) (integer x) e = same_type-has_type a b (integer x) e
  same_type-has_type (optional a) (optional b) (text x) e = same_type-has_type a b (text x) e
  same_type-has_type (optional a) (optional b) (sequence x) e =
      same_type-has_type a b (sequence x) e
  same_type-has_type (optional a) (optional b) (frozenset x) e =
      same_type-has_type a b (frozenset x) e
  same_type-has_type (optional a) (optional b) (bytes x) e = same_type-has_type a b (bytes x) e
  same_type-has_type (optional a) (optional b) (decimal x) e = same_type-has_type a b (decimal x) e
  same_type-has_type (optional a) (optional b) (mapping x) e = same_type-has_type a b (mapping x) e
  same_type-has_type (record_of a) (record_of b) d e = refl
  same_type-has_type (scalar s) (optional b) d e = cc
  same_type-has_type (scalar s) (list b) d e = cc
  same_type-has_type (scalar s) (set b) d e = cc
  same_type-has_type (scalar s) (map b k) d e = cc
  same_type-has_type (scalar s) (record_of gs) d e = cc
  same_type-has_type (optional a) (scalar t) d e = cc
  same_type-has_type (optional a) (list b) d e = cc
  same_type-has_type (optional a) (set b) d e = cc
  same_type-has_type (optional a) (map b k) d e = cc
  same_type-has_type (optional a) (record_of gs) d e = cc
  same_type-has_type (list a) (scalar t) d e = cc
  same_type-has_type (list a) (optional b) d e = cc
  same_type-has_type (list a) (list b) nothing e = refl
  same_type-has_type (list a) (list b) (boolean x) e = refl
  same_type-has_type (list a) (list b) (integer x) e = refl
  same_type-has_type (list a) (list b) (text x) e = refl
  same_type-has_type (list a) (list b) (sequence x) e = same_type-all_have_type a b x e
  same_type-has_type (list a) (list b) (frozenset x) e = refl
  same_type-has_type (list a) (list b) (bytes x) e = refl
  same_type-has_type (list a) (list b) (decimal x) e = refl
  same_type-has_type (list a) (list b) (mapping x) e = refl
  same_type-has_type (list a) (set b) d e = cc
  same_type-has_type (list a) (map b k) d e = cc
  same_type-has_type (list a) (record_of gs) d e = cc
  same_type-has_type (set a) (scalar t) d e = cc
  same_type-has_type (set a) (optional b) d e = cc
  same_type-has_type (set a) (list b) d e = cc
  same_type-has_type (set a) (set b) nothing e = refl
  same_type-has_type (set a) (set b) (boolean x) e = refl
  same_type-has_type (set a) (set b) (integer x) e = refl
  same_type-has_type (set a) (set b) (text x) e = refl
  same_type-has_type (set a) (set b) (sequence x) e = refl
  same_type-has_type (set a) (set b) (frozenset x) e = same_type-all_have_type a b x e
  same_type-has_type (set a) (set b) (bytes x) e = refl
  same_type-has_type (set a) (set b) (decimal x) e = refl
  same_type-has_type (set a) (set b) (mapping x) e = refl
  same_type-has_type (set a) (map b k) d e = cc
  same_type-has_type (set a) (record_of gs) d e = cc
  same_type-has_type (map a c) (scalar t) d e = cc
  same_type-has_type (map a c) (optional b) d e = cc
  same_type-has_type (map a c) (list b) d e = cc
  same_type-has_type (map a c) (set b) d e = cc
  same_type-has_type (map a c) (map b k) nothing e = refl
  same_type-has_type (map a c) (map b k) (boolean x) e = refl
  same_type-has_type (map a c) (map b k) (integer x) e = refl
  same_type-has_type (map a c) (map b k) (text x) e = refl
  same_type-has_type (map a c) (map b k) (sequence x) e = refl
  same_type-has_type (map a c) (map b k) (frozenset x) e = refl
  same_type-has_type (map a c) (map b k) (bytes x) e = refl
  same_type-has_type (map a c) (map b k) (decimal x) e = refl
  same_type-has_type (map a c) (map b k) (mapping x) e = refl
  same_type-has_type (map a c) (record_of gs) d e = cc
  same_type-has_type (record_of fs) (scalar t) d e = cc
  same_type-has_type (record_of fs) (optional b) d e = cc
  same_type-has_type (record_of fs) (list b) d e = cc
  same_type-has_type (record_of fs) (set b) d e = cc
  same_type-has_type (record_of fs) (map b k) d e = cc

  pub same_type-all_have_type :
      (a b : TypeNode) (ds : Data) → same_type a b ≡ true → all_have_type ds a ≡ all_have_type ds b
  same_type-all_have_type a b empty e = refl
  same_type-all_have_type a b (more d ds) e =
      rw (same_type-has_type a b d e, same_type-all_have_type a b ds e) refl
