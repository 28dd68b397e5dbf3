-- ===== src/Core/Expression/Nodes/Gives.antt =====
-- Runs that give a value of a type, or raise what evaluation may raise.
use mathlib.Core.Path.{subst}
use auditspec.Prelude.{
  String, Bool, true, Option, none, some, List, [], ◌∷◌, ◌≡◌, ◌⊎◌, inl, inr, refl, sym, ◌∙◌, ap,
  Bool-cases, &&-left, &&-right,
}
use auditspec.Prelude.Text.{◌≟◌}
use auditspec.Prelude.Dict.{Dict, find}
use auditspec.Prelude.Result.{Error, Result, ok, err, unhashable, ◌>>=◌, ok-injective}
use auditspec.Core.Value.{Value, null, bool, int, str, arr, obj, other}
use auditspec.Core.Wire.{TypeNode, from_wire}
use auditspec.Core.Wire.RoundTrip.{IsType, from_wire-to_wire}
use auditspec.Core.Expression.Datum.{
  Datum, boolean, Data, empty, more, set_of, is_ref, has_type, all_have_type, all_hashable,
}
use auditspec.Core.Expression.Decode.{ref_of}
use auditspec.Core.Expression.Decode.Plain.{set_of-all_have_type}
use auditspec.Core.Expression.Operators.{
  same_type, is_collection, boolean_type, elements, no_elements,
}
use auditspec.Core.Expression.Operators.Equality.{same_type-has_type, same_type-all_have_type}
use auditspec.Core.Expression.Operators.Sound.{Outcome, has_type-Elements}
use auditspec.Core.Expression.Operators.Typed.{have_types}
use auditspec.Core.Expression.Nodes.{
  FunctionBinding, is_bound, same_types, collection_of, resolved, collect, answers, quantified,
  bind,
}

pub from_wire-IsType : (v : Value) (t : TypeNode) → from_wire v ≡ ok t → IsType t
from_wire-IsType v t h =
    let (both, again) = from_wire-to_wire t in let (forth, back) = both in (back (again v h)).0

some-injective : (a b : TypeNode) → some a ≡ some b → a ≡ b
some-injective a b h = ap (λ (o : Option TypeNode). elim o [ none ↦ a | some c ↦ c ]) h

pub ref_of-str : (v : Value) (s : String) → ref_of v ≡ ok s → v ≡ str s
ref_of-str (str x) s h = elim (Bool-cases (is_ref x)) [
  | inl e ↦ ap str (ok-injective x s (rw e at h))
  | inr e ↦ cc (rw e at h)
]
ref_of-str null s h = cc
ref_of-str (bool b) s h = cc
ref_of-str (int n) s h = cc
ref_of-str (arr xs) s h = cc
ref_of-str (obj fs) s h = cc
ref_of-str (other b n) s h = cc

pub is_bound-some :
    (o : Option TypeNode) (t : TypeNode)
    → is_bound o t ≡ true
    → (u : TypeNode) × (o ≡ some u) × (same_type u t ≡ true)
is_bound-some none t h = cc
is_bound-some (some u) t h = (u, refl, h)

pub same_types-have_types :
    (ts us : List TypeNode) (ds : List Datum)
    → same_types ts us ≡ true
    → have_types ds ts ≡ true
    → have_types ds us ≡ true
unfolding have_types
same_types-have_types [] [] ds s h = h
same_types-have_types [] (u ∷ us) ds s h = cc
same_types-have_types (t ∷ ts) [] ds s h = cc
same_types-have_types (t ∷ ts) (u ∷ us) [] s h = cc
same_types-have_types (t ∷ ts) (u ∷ us) (d ∷ ds) s h =
    let e =
      sym (same_type-has_type t u d (&&-left (same_type t u) (same_types ts us) s))
      ∙ &&-left (has_type d t) (have_types ds ts) h in
    let rest =
      same_types-have_types ts us ds (&&-right (same_type t u) (same_types ts us) s)
        (&&-right (has_type d t) (have_types ds ts) h) in
    rw (e, rest) refl

-- Every variable has a value of its type.
abbrev pub Fits : Dict TypeNode → Dict Datum → Type 0
Fits variables values =
    (s : String) (t : TypeNode)
    → find s variables ≡ some t
    → (d : Datum) × (find s values ≡ some d) × (has_type d t ≡ true)

pub Fits-bind :
    (s : String) (item : TypeNode) (d : Datum) (variables : Dict TypeNode) (values : Dict Datum)
    → Fits variables values
    → has_type d item ≡ true
    → Fits (bind s item variables) (bind s d values)
Fits-bind s item d variables values f h name t e = elim (Bool-cases (s ≟ name)) [
  | inl c ↦ (d, rw c refl, subst (λ x. has_type d x ≡ true) (some-injective item t (rw c at e)) h)
  | inr c ↦ let (v, g, k) = f name t (rw c at e) in (v, rw c g, k)
]

abbrev pub OfType : TypeNode → Datum → Type 0
OfType t d = has_type d t ≡ true

boolean-OfType : (b : Bool) → OfType boolean_type (boolean b)
unfolding has_type
boolean-OfType b = refl

-- `Raises` are the exceptions that registered functions may raise.
module _ (Raises : Error → Type 0) where
  -- A list was to be hashed, the extreme of nothing was asked for, or a function raised.
  abbrev pub Allowed : Error → Type 0
  Allowed e = ((e ≡ unhashable) ⊎ (e ≡ no_elements)) ⊎ Raises e

  abbrev pub Gives : {A : Type 0} → (A → Type 0) → Result A → Type 0
  Gives P (ok a) = P a
  Gives P (err e) = Allowed e

  pub bind-Gives :
      {A B : Type 0} (P : A → Type 0) (Q : B → Type 0) (r : Result A) (f : A → Result B)
      → Gives P r
      → ((a : A) → P a → Gives Q (f a))
      → Gives Q (r >>= f)
  bind-Gives P Q (ok a) f h k = k a h
  bind-Gives P Q (err e) f h k = h

  pub Outcome-Gives : (t : TypeNode) (r : Result Datum) → Outcome t r → Gives (OfType t) r
  Outcome-Gives t (ok d) h = h
  Outcome-Gives t (err e) h = inl h

  pub collect-Gives :
      (kind : String) (item : TypeNode) (ds : Data)
      → all_have_type ds item ≡ true
      → Gives (OfType (collection_of kind item)) (collect kind ds)
  unfolding set_of has_type
  collect-Gives kind item ds h = elim (Bool-cases (kind ≟ "list")) [
    | inl c ↦ rw c h
    | inr c ↦ elim (Bool-cases (all_hashable ds)) [
      | inl e ↦ rw (c, e) (set_of-all_have_type ds item h (rw e refl))
      | inr e ↦ rw (c, e) (inl (inl refl))
    ]
  ]

  answers-Gives :
      (f : Datum → Result Datum) (item : TypeNode) (Q : Datum → Type 0) (ds : Data)
      → ((d : Datum) → has_type d item ≡ true → Gives Q (f d))
      → all_have_type ds item ≡ true
      → Gives (λ (bs : List Bool). Unit {0}) (answers f ds)
  unfolding answers has_type
  answers-Gives f item Q empty h a = tt
  answers-Gives f item Q (more d ds) h a =
      bind-Gives Q (λ bs. Unit) (f d) _ (h d (&&-left (has_type d item) (all_have_type ds item) a))
        λ b q.
          bind-Gives (λ bs. Unit) (λ bs. Unit) (answers f ds) _
            (answers-Gives f item Q ds h (&&-right (has_type d item) (all_have_type ds item) a))
            λ bs u. tt

module _ (Raises : Error → Type 0) where
  -- A quantifier over a domain of the right type.
  pub over_elements :
      (quant : String) (item : TypeNode) (run : Datum → Result Datum) (Q : Datum → Type 0)
      (t : TypeNode) (d : Datum)
      → is_collection (λ u. same_type u item) t ≡ true
      → has_type d t ≡ true
      → ((x : Datum) → has_type x item ≡ true → Gives Raises Q (run x))
      → Gives Raises
          (OfType boolean_type)
          (elements d >>= λ ds. answers run ds >>= λ bs. ok (boolean (quantified quant bs)))
  over_elements quant item run Q t d c h each =
      let l = has_type-Elements (λ u. same_type u item) t d c h in
      let typed = sym (same_type-all_have_type l.item item l.data_ l.passes) ∙ l.typed_ in
      rw l.read (
        bind-Gives Raises (λ bs. Unit) (OfType boolean_type) (answers run l.data_) _
          (answers-Gives Raises run item Q l.data_ each typed)
          λ bs u. boolean-OfType (quantified quant bs))

-- The functions that the resolver gives keep their signatures, up to the exceptions that they raise.
abbrev pub Keeps : (Error → Type 0) → Option (Value → Result FunctionBinding) → Type 0
Keeps Raises resolver =
    (f : Value) (b : FunctionBinding) (ds : List Datum)
    → resolved resolver f ≡ ok b
    → have_types ds b.input_types ≡ true
    → Gives Raises (OfType b.output_type) (b.implementation ds)

pub have_cons :
    (d : Datum) (t : TypeNode) (ds : List Datum) (ts : List TypeNode)
    → has_type d t ≡ true
    → have_types ds ts ≡ true
    → have_types (d ∷ ds) (t ∷ ts) ≡ true
unfolding have_types
have_cons d t ds ts h k = rw (h, k) refl

pub data_cons :
    (d : Datum) (t : TypeNode) (ds : Data)
    → has_type d t ≡ true
    → all_have_type ds t ≡ true
    → all_have_type (more d ds) t ≡ true
unfolding has_type
data_cons d t ds h k = rw (h, k) refl

pub data_nil : (t : TypeNode) → all_have_type empty t ≡ true
unfolding has_type
data_nil t = refl

pub nil_types : have_types [] [] ≡ true
unfolding have_types
nil_types = refl
