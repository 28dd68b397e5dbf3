-- ===== src/Core/Expression/Decode/Plain.antt =====
-- Values that are no collections, and the collections at the end of a decoding.
use mathlib.Core.Path.{subst}
use auditspec.Prelude.{
  ℕ, Bool, true, false, List, ◌≡◌, refl, sym, inl, inr, Bool-cases, &&-left, &&-right,
  if◌then◌else◌,
}
use auditspec.Prelude.Text.{codes}
use auditspec.Prelude.Result.{Error, Result, ok, err, require, ◌>>=◌, ◌>>◌, >>=-eq-ok, ok-injective}
use auditspec.Core.Value.{Value, null, bool, int, str, arr, obj, other}
use auditspec.Core.Wire.{TypeNode, scalar, optional, list, set, map, record_of}
use auditspec.Core.Wire.RoundTrip.{IsType}
use auditspec.Core.Wire.Decimal.{require_natural, an_integer}
use auditspec.Core.Expression.Datum.{
  Datum, nothing, boolean, integer, text, sequence, frozenset, bytes, decimal, mapping, Data, empty,
  more, in_data, distinct, all_hashable, set_of, matches, has_type, all_have_type,
}
use auditspec.Core.Expression.Decode.{
  is_hex_text, not_hex, not_an_instant, not_a_date, instant_datum, require_python_type,
  checked_value, item_of, bool_of, text_of, bytes_of, ref_of, require_instant,
  require_anchored_time,
}
use auditspec.Core.Expression.Encoded.{take_codes, is_instant_text}

-- A value that is no collection.
abbrev pub IsPlain : Datum → Type 0
IsPlain (sequence ds) = ⊥
IsPlain (frozenset ds) = ⊥
IsPlain nothing = Unit
IsPlain (boolean b) = Unit
IsPlain (integer n) = Unit
IsPlain (text s) = Unit
IsPlain (bytes s) = Unit
IsPlain (decimal d) = Unit
IsPlain (mapping es) = Unit

require-ok : (b : Bool) (e : Error) → require b e ≡ ok tt → b ≡ true
require-ok true e h = refl
require-ok false e h = cc

plain-has_type :
    (d : Datum) (t : TypeNode)
    → IsPlain d
    → IsType t
    → require_python_type d t ≡ ok tt
    → has_type d t ≡ true
unfolding has_type require_python_type
plain-has_type d (record_of fs) p i h = refl
plain-has_type d (scalar name) p i h = rw (i, require-ok (matches name d) _ h) refl
plain-has_type nothing (optional t) p i h = refl
plain-has_type (boolean b) (optional t) p i h = plain-has_type (boolean b) t p i h
plain-has_type (integer n) (optional t) p i h = plain-has_type (integer n) t p i h
plain-has_type (text s) (optional t) p i h = plain-has_type (text s) t p i h
plain-has_type (bytes s) (optional t) p i h = plain-has_type (bytes s) t p i h
plain-has_type (decimal e) (optional t) p i h = plain-has_type (decimal e) t p i h
plain-has_type (mapping es) (optional t) p i h = plain-has_type (mapping es) t p i h
plain-has_type (sequence ds) t p i h = absurd p
plain-has_type (frozenset ds) t p i h = absurd p
plain-has_type (mapping es) (map k t) p i h = refl
plain-has_type nothing (list t) p i h = cc
plain-has_type (boolean b) (list t) p i h = cc
plain-has_type (integer n) (list t) p i h = cc
plain-has_type (text s) (list t) p i h = cc
plain-has_type (bytes s) (list t) p i h = cc
plain-has_type (decimal e) (list t) p i h = cc
plain-has_type (mapping es) (list t) p i h = cc
plain-has_type nothing (set t) p i h = cc
plain-has_type (boolean b) (set t) p i h = cc
plain-has_type (integer n) (set t) p i h = cc
plain-has_type (text s) (set t) p i h = cc
plain-has_type (bytes s) (set t) p i h = cc
plain-has_type (decimal e) (set t) p i h = cc
plain-has_type (mapping es) (set t) p i h = cc
plain-has_type nothing (map k t) p i h = cc
plain-has_type (boolean b) (map k t) p i h = cc
plain-has_type (integer n) (map k t) p i h = cc
plain-has_type (text s) (map k t) p i h = cc
plain-has_type (bytes s) (map k t) p i h = cc
plain-has_type (decimal e) (map k t) p i h = cc

checked_value-ok :
    (d : Datum) (t : TypeNode) {e : Datum}
    → checked_value d t ≡ ok e
    → (require_python_type d t ≡ ok tt) × (d ≡ e)
unfolding checked_value
checked_value-ok d t {e} h =
    let (u, g, k) = >>=-eq-ok (require_python_type d t) (λ x. ok d) h in (g, ok-injective d e k)

pub checked_value-has_type :
    (d : Datum) (t : TypeNode) {e : Datum}
    → IsPlain d
    → IsType t
    → checked_value d t ≡ ok e
    → has_type e t ≡ true
checked_value-has_type d t p i h =
    let (g, e) = checked_value-ok d t h in
    subst (λ x. has_type x t ≡ true) e (plain-has_type d t p i g)

pub sequence-has_type :
    (ds : Data) (item t : TypeNode) {e : Datum}
    → item_of t ≡ ok item
    → all_have_type ds item ≡ true
    → checked_value (sequence ds) t ≡ ok e
    → has_type e t ≡ true
unfolding has_type require_python_type
sequence-has_type ds item (list u) {e} o a h =
    let (g, k) = checked_value-ok (sequence ds) (list u) h in
    subst (λ x. has_type x (list u) ≡ true) k
      (subst (λ v. all_have_type ds v ≡ true) (sym (ok-injective u item o)) a)
sequence-has_type ds item (set u) o a h = cc (checked_value-ok (sequence ds) (set u) h).0
sequence-has_type ds item (scalar name) o a h = cc
sequence-has_type ds item (optional u) o a h = cc
sequence-has_type ds item (map k u) o a h = cc
sequence-has_type ds item (record_of fs) o a h = cc

pub frozenset-has_type :
    (ds : Data) (item t : TypeNode) {e : Datum}
    → item_of t ≡ ok item
    → all_have_type ds item ≡ true
    → checked_value (frozenset ds) t ≡ ok e
    → has_type e t ≡ true
unfolding has_type require_python_type
frozenset-has_type ds item (set u) {e} o a h =
    let (g, k) = checked_value-ok (frozenset ds) (set u) h in
    subst (λ x. has_type x (set u) ≡ true) k
      (subst (λ v. all_have_type ds v ≡ true) (sym (ok-injective u item o)) a)
frozenset-has_type ds item (list u) o a h = cc (checked_value-ok (frozenset ds) (list u) h).0
frozenset-has_type ds item (scalar name) o a h = cc
frozenset-has_type ds item (optional u) o a h = cc
frozenset-has_type ds item (map k u) o a h = cc
frozenset-has_type ds item (record_of fs) o a h = cc

distinct-all_have_type :
    (ds : Data) (t : TypeNode) → all_have_type ds t ≡ true → all_have_type (distinct ds) t ≡ true
unfolding distinct has_type
distinct-all_have_type empty t h = refl
distinct-all_have_type (more d ds) t h =
    let rest = distinct-all_have_type ds t (&&-right (has_type d t) (all_have_type ds t) h) in
    elim (Bool-cases (in_data d (distinct ds))) [
      | inl e ↦ rw e rest
      | inr e ↦ rw (e, &&-left (has_type d t) (all_have_type ds t) h, rest) refl
    ]

pub set_of-all_have_type :
    (ds : Data) (t : TypeNode) {ones : Data}
    → all_have_type ds t ≡ true
    → set_of ds ≡ ok ones
    → all_have_type ones t ≡ true
unfolding set_of
set_of-all_have_type ds t h k = elim (Bool-cases (all_hashable ds)) [
  | inl e ↦
      subst (λ x. all_have_type x t ≡ true) (ok-injective (distinct ds) _ (rw e at k))
        (distinct-all_have_type ds t h)
  | inr e ↦ cc (rw e at k)
]

pub item_of-IsType : (t : TypeNode) {item : TypeNode} → IsType t → item_of t ≡ ok item → IsType item
item_of-IsType (list u) i h = subst IsType (ok-injective u _ h) i
item_of-IsType (set u) i h = subst IsType (ok-injective u _ h) i
item_of-IsType (scalar name) i h = cc
item_of-IsType (optional u) i h = cc
item_of-IsType (map k u) i h = cc
item_of-IsType (record_of fs) i h = cc

pub all_more :
    (d : Datum) (ds : Data) (t : TypeNode)
    → has_type d t ≡ true
    → all_have_type ds t ≡ true
    → all_have_type (more d ds) t ≡ true
unfolding has_type
all_more d ds t h k = rw (h, k) refl

pub all_empty : (t : TypeNode) → all_have_type empty t ≡ true
unfolding has_type
all_empty t = refl

-- A run whose value, if it has one, is no collection.
abbrev pub GivesPlain : Result Datum → Type 0
GivesPlain (ok d) = IsPlain d
GivesPlain (err e) = Unit

pub plain_run-has_type :
    (run : Result Datum) (t : TypeNode) {e : Datum}
    → GivesPlain run
    → IsType t
    → (run >>= λ d. checked_value d t) ≡ ok e
    → has_type e t ≡ true
plain_run-has_type (ok d) t p i h = checked_value-has_type d t p i h
plain_run-has_type (err e) t p i h = cc

if_plain : (b : Bool) (d : Datum) (e : Error) → IsPlain d → GivesPlain (if b then ok d else err e)
if_plain true d e p = p
if_plain false d e p = tt

pub bool_of-GivesPlain : (v : Value) → GivesPlain (bool_of v)
bool_of-GivesPlain v = elim v as (λ w. GivesPlain (bool_of w)) [
  | bool b ↦ tt
  | null ↦ tt
  | int n ↦ tt
  | str s ↦ tt
  | arr xs ↦ tt
  | obj fs ↦ tt
  | other b n ↦ tt
]

pub text_of-GivesPlain : (v : Value) → GivesPlain (text_of v)
text_of-GivesPlain v = elim v as (λ w. GivesPlain (text_of w)) [
  | bool b ↦ tt
  | null ↦ tt
  | int n ↦ tt
  | str s ↦ tt
  | arr xs ↦ tt
  | obj fs ↦ tt
  | other b n ↦ tt
]

pub bytes_of-GivesPlain : (v : Value) → GivesPlain (bytes_of v)
bytes_of-GivesPlain v = elim v as (λ w. GivesPlain (bytes_of w)) [
  | str s ↦ if_plain (is_hex_text (codes s)) (bytes s) not_hex tt
  | bool b ↦ tt
  | null ↦ tt
  | int n ↦ tt
  | arr xs ↦ tt
  | obj fs ↦ tt
  | other b n ↦ tt
]

module _ (accepts_date : List ℕ → Bool) where
  bind_plain :
      {A : Type 0} (m : Result A) (f : A → Result Datum)
      → ((a : A) → GivesPlain (f a))
      → GivesPlain (m >>= f)
  bind_plain (ok a) f h = h a
  bind_plain (err e) f h = tt

  require_plain :
      (b : Bool) (e : Error) (r : Result Datum) → GivesPlain r → GivesPlain (require b e >> r)
  require_plain true e r h = h
  require_plain false e r h = tt

  pub require_instant-GivesPlain : (v : Value) → GivesPlain (require_instant accepts_date v)
  unfolding require_instant
  require_instant-GivesPlain v = elim v as (λ w. GivesPlain (require_instant accepts_date w)) [
    | str s ↦
        let given =
          require (accepts_date (take_codes 19 (codes s))) not_a_date >> ok (instant_datum s) in
        require_plain (is_instant_text (codes s)) not_an_instant given (
          require_plain (accepts_date (take_codes 19 (codes s))) not_a_date (ok (instant_datum s))
            tt)
    | bool b ↦ tt
    | null ↦ tt
    | int n ↦ tt
    | arr xs ↦ tt
    | obj fs ↦ tt
    | other b n ↦ tt
  ]

  pub require_anchored_time-GivesPlain :
      (i n a : Value) → GivesPlain (require_anchored_time accepts_date i n a)
  unfolding require_anchored_time
  require_anchored_time-GivesPlain i n a = bind_plain (require_instant accepts_date i) _ λ at.
      bind_plain (an_integer n) _
        λ m. bind_plain (require_natural m) _ λ ns. bind_plain (ref_of a) _ λ anchor. tt
