-- ===== src/Core/Expression/Decode/Typed.antt =====
-- What `decode_canonical_value` returns is a value of the expected type.
use mathlib.Core.Path.{subst}
use auditspec.Prelude.{ℕ, Bool, true, none, List, ◌≡◌}
use auditspec.Prelude.Int.{pos}
use auditspec.Prelude.Result.{ok, traverse, >>=-eq-ok, require-eq-ok, ok-injective}
use auditspec.Core.Canonical.{canonical_json}
use auditspec.Core.Wire.{TypeNode}
use auditspec.Core.Wire.RoundTrip.{IsType}
use auditspec.Core.Wire.Decimal.{exact_decimal, require_int, require_natural, an_integer}
use auditspec.Core.Expression.Datum.{
  Datum, nothing, integer, decimal, mapping, Data, empty, more, set_of, has_type, all_have_type,
}
use auditspec.Core.Expression.Decode.{
  item_of, map_item_of, bool_of, text_of, bytes_of, require_instant, require_anchored_time, decode,
  decode_all, decode_entries,
}
use auditspec.Core.Expression.Encoded.{
  CanonicalValue, null_value, bool_value, integer_value, string_value, decimal_value, bytes_value,
  instant_value, anchored_value, list_value, set_value, map_value, unknown_value, CanonicalValues,
  no_values, value_and, list_of, is_sorted_unique,
}
use auditspec.Core.Expression.Decode.Plain.{
  checked_value-has_type, sequence-has_type, frozenset-has_type, set_of-all_have_type,
  item_of-IsType, all_more, all_empty, plain_run-has_type, bool_of-GivesPlain, text_of-GivesPlain,
  bytes_of-GivesPlain, require_instant-GivesPlain, require_anchored_time-GivesPlain,
}

module _ (accepts_date : List ℕ → Bool) where
  mutual
    unfolding decode

    decode_typed :
        (v : CanonicalValue) (t : TypeNode) {d : Datum}
        → IsType t
        → decode accepts_date v t ≡ ok d
        → has_type d t ≡ true
    decode_typed null_value t i h = checked_value-has_type nothing t tt i h
    decode_typed (bool_value v) t i h = plain_run-has_type (bool_of v) t (bool_of-GivesPlain v) i h
    decode_typed (integer_value v) t i h =
        let (m, g, k) = >>=-eq-ok (an_integer v) _ h in
        let (n, g1, k1) = >>=-eq-ok (require_int m) _ k in
        checked_value-has_type (integer n) t tt i k1
    decode_typed (string_value v) t i h =
        plain_run-has_type (text_of v) t (text_of-GivesPlain v) i h
    decode_typed (decimal_value c s) t i h =
        let (m, g, k) = >>=-eq-ok (an_integer c) _ h in
        let (coefficient, g1, k1) = >>=-eq-ok (require_int m) _ k in
        let (n, g2, k2) = >>=-eq-ok (an_integer s) _ k1 in
        let (scale, g3, k3) = >>=-eq-ok (require_natural n) _ k2 in
        let (e, g4, k4) = >>=-eq-ok (exact_decimal coefficient (pos scale)) _ k3 in
        checked_value-has_type (decimal e) t tt i k4
    decode_typed (bytes_value v) t i h =
        plain_run-has_type (bytes_of v) t (bytes_of-GivesPlain v) i h
    decode_typed (instant_value v) t i h =
        plain_run-has_type (require_instant accepts_date v) t
          (require_instant-GivesPlain accepts_date v) i h
    decode_typed (anchored_value a n b) t i h =
        plain_run-has_type (require_anchored_time accepts_date a n b) t
          (require_anchored_time-GivesPlain accepts_date a n b) i h
    decode_typed (list_value vs) t i h =
        let (item, o, k) = >>=-eq-ok (item_of t) _ h in
        let (ds, g, k1) = >>=-eq-ok (decode_all accepts_date vs item) _ k in
        sequence-has_type ds item t o (decode_all_typed vs item (item_of-IsType t i o) g) k1
    decode_typed (set_value vs) t i h =
        let (item, o, k) = >>=-eq-ok (item_of t) _ h in
        let (ds, g, k1) = >>=-eq-ok (decode_all accepts_date vs item) _ k in
        let (encoded, g1, k2) = >>=-eq-ok (traverse canonical_json (list_of vs)) _ k1 in
        let (g2, k3) = require-eq-ok (is_sorted_unique encoded) _ _ k2 in
        let (ones, g3, k4) = >>=-eq-ok (set_of ds) _ k3 in
        frozenset-has_type ones item t o
          (set_of-all_have_type ds item (decode_all_typed vs item (item_of-IsType t i o) g) g3) k4
    decode_typed (map_value es) t i h =
        let (item, o, k) = >>=-eq-ok (map_item_of t) _ h in
        let (m, g, k1) = >>=-eq-ok (decode_entries accepts_date none es item) _ k in
        checked_value-has_type (mapping m) t tt i k1
    decode_typed (unknown_value kind) t i h = cc

    decode_all_typed :
        (vs : CanonicalValues) (item : TypeNode) {ds : Data}
        → IsType item
        → decode_all accepts_date vs item ≡ ok ds
        → all_have_type ds item ≡ true
    decode_all_typed no_values item i h =
        subst (λ x. all_have_type x item ≡ true) (ok-injective empty _ h) (all_empty item)
    decode_all_typed (value_and v vs) item i h =
        let (d, g, k) = >>=-eq-ok (decode accepts_date v item) _ h in
        let (ds, g1, k1) = >>=-eq-ok (decode_all accepts_date vs item) _ k in
        subst (λ x. all_have_type x item ≡ true) (ok-injective (more d ds) _ k1)
          (all_more d ds item (decode_typed v item i g) (decode_all_typed vs item i g1))

  -- A canonical value that decodes at a well-formed type is a value of that type, with all the
  -- elements of its lists and sets.
  pub decode-has_type :
      (v : CanonicalValue) (t : TypeNode) (d : Datum)
      → IsType t
      → decode accepts_date v t ≡ ok d
      → has_type d t ≡ true
  decode-has_type v t d i h = decode_typed v t i h
