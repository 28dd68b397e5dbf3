-- ===== src/Core/Expression/Nodes/Sound.antt =====
-- What a validated expression evaluates to.
use mathlib.Core.Path.{subst}
use auditspec.Prelude.{
  ℕ, suc, ◌+◌, Bool, true, not, ◌||◌, Option, List, [], ◌∷◌, ltb, ◌≡◌, sym, ◌∙◌, ap,
}
use auditspec.Prelude.Text.{◌≟◌}
use auditspec.Prelude.Dict.{Dict, find}
use auditspec.Prelude.Result.{Error, Result, ok, >>=-eq-ok, require-eq-ok, ok-injective}
use auditspec.Core.Value.{Value}
use auditspec.Core.Canonical.{canonical_json}
use auditspec.Core.Wire.{TypeNode, from_wire}
use auditspec.Core.Expression.Datum.{Datum, to_data, has_type, all_have_type}
use auditspec.Core.Expression.Decode.{ref_of, decode}
use auditspec.Core.Expression.Encoded.{is_sorted_unique}
use auditspec.Core.Expression.Decode.Typed.{decode-has_type}
use auditspec.Core.Expression.Operators.{
  same_type, is_collection, boolean_type, operator_type, apply_operator,
}
use auditspec.Core.Expression.Operators.Equality.{same_type-has_type}
use auditspec.Core.Expression.Operators.Typed.{have_types, apply_operator-Outcome}
use auditspec.Core.Expression.Nodes.{
  FunctionBinding, is_bound, same_types, is_empty_args, collection_of, resolved, max_depth,
  key_text, bind, Expr, max_nodes, build, validate, validate_args, validate_elements, evaluate,
  evaluate_args,
}
use auditspec.Core.Expression.Tree.{
  Node, literal, variable, collection, operator, quantifier, call, no_node, Nodes, no_nodes,
  node_and, node_json,
}
use auditspec.Core.Expression.Nodes.Gives.{
  from_wire-IsType, ref_of-str, is_bound-some, same_types-have_types, Fits, Fits-bind, OfType,
  Gives, bind-Gives, Outcome-Gives, collect-Gives, over_elements, Keeps, have_cons, data_cons,
  data_nil, nil_types,
}

module _ (Raises : Error → Type 0) (accepts_date : List ℕ → Bool)
    (resolver : Option (Value → Result FunctionBinding)) (keeps : Keeps Raises resolver) where
  mutual
    unfolding validate evaluate

    pub validate-Gives :
        (variables : Dict TypeNode) (values : Dict Datum) (depth : ℕ) (node : Node)
        {p : TypeNode × ℕ}
        → Fits variables values
        → validate accepts_date resolver variables depth node ≡ ok p
        → Gives Raises (OfType p.0) (evaluate accepts_date resolver values node)
    validate-Gives variables values depth (literal value_type value) {p} f h =
        let (w, k) = require-eq-ok (not (ltb max_depth depth)) _ _ h in
        let (t, ht, k1) = >>=-eq-ok (from_wire value_type) _ k in
        let (d, hd, k2) = >>=-eq-ok (decode accepts_date value t) _ k1 in
        rw (ht, hd)
          (subst (λ x. has_type d x ≡ true)
            (ap (λ (q : TypeNode × ℕ). q.0) (ok-injective (t, 1) p k2))
            (decode-has_type accepts_date value t d (from_wire-IsType value_type t ht) hd))
    validate-Gives variables values depth (variable name value_type) {p} f h =
        let (w, k) = require-eq-ok (not (ltb max_depth depth)) _ _ h in
        let (s, hs, k1) = >>=-eq-ok (ref_of name) _ k in
        let (t, ht, k2) = >>=-eq-ok (from_wire value_type) _ k1 in
        let (hb, k3) = require-eq-ok (is_bound (find s variables) t) _ _ k2 in
        let (u, hu, e) = is_bound-some (find s variables) t hb in
        let (d, hd, i) = f s u hu in
        rw (ref_of-str name s hs, hd)
          (subst (λ x. has_type d x ≡ true)
            (ap (λ (q : TypeNode × ℕ). q.0) (ok-injective (t, 1) p k3))
            (sym (same_type-has_type u t d e) ∙ i))
    validate-Gives variables values depth (collection kind element_type children value_type) {p} f
          h =
        let (w, k) = require-eq-ok (not (ltb max_depth depth)) _ _ h in
        let (hk, k1) = require-eq-ok (kind ≟ "list" || kind ≟ "set") _ _ k in
        let (item, hi, k2) = >>=-eq-ok (from_wire element_type) _ k1 in
        let (t, ht, k3) = >>=-eq-ok (from_wire value_type) _ k2 in
        let (hc, k4) = require-eq-ok (same_type t (collection_of kind item)) _ _ k3 in
        let (q, hq, k5) =
          >>=-eq-ok (validate_elements accepts_date resolver variables depth item children) _ k4 in
        let (hu, k6) = require-eq-ok (not (kind ≟ "set") || is_sorted_unique q.1) _ _ k5 in
        subst
          (λ x. Gives Raises (OfType x) (
            evaluate accepts_date resolver values
              (collection kind element_type children value_type)))
          (ap (λ (r : TypeNode × ℕ). r.0) (ok-injective (collection_of kind item, suc q.0) p k6))
          (bind-Gives Raises (λ ds. all_have_type (to_data ds) item ≡ true)
            (OfType (collection_of kind item)) (evaluate_args accepts_date resolver values children)
            _ (validate_elements-Gives variables values depth item children f hq)
            λ ds a. collect-Gives Raises kind item (to_data ds) a)
    validate-Gives variables values depth (operator op args value_type) {p} f h =
        let (w, k) = require-eq-ok (not (ltb max_depth depth)) _ _ h in
        let (hn, k1) = require-eq-ok (not (is_empty_args args)) _ _ k in
        let (q, hq, k2) =
          >>=-eq-ok (validate_args accepts_date resolver variables depth args) _ k1 in
        let (result, hr, k3) = >>=-eq-ok (operator_type op q.0) _ k2 in
        let (t, ht, k4) = >>=-eq-ok (from_wire value_type) _ k3 in
        let (hs, k5) = require-eq-ok (same_type t result) _ _ k4 in
        subst
          (λ x.
            Gives Raises (OfType x)
              (evaluate accepts_date resolver values (operator op args value_type)))
          (ap (λ (r : TypeNode × ℕ). r.0) (ok-injective (result, suc q.1) p k5))
          (bind-Gives Raises (λ ds. have_types ds q.0 ≡ true) (OfType result)
            (evaluate_args accepts_date resolver values args) _
            (validate_args-Gives variables values depth args f hq)
            λ ds a.
              Outcome-Gives Raises result (apply_operator op ds)
                (apply_operator-Outcome op q.0 ds hr a))
    validate-Gives variables values depth (quantifier quant name bound domain body value_type) {p} f
          h =
        let (w, k) = require-eq-ok (not (ltb max_depth depth)) _ _ h in
        let (hq, k1) = require-eq-ok (quant ≟ "forall" || quant ≟ "exists") _ _ k in
        let (s, hs, k2) = >>=-eq-ok (ref_of name) _ k1 in
        let (item, hi, k3) = >>=-eq-ok (from_wire bound) _ k2 in
        let (a, ha, k4) =
          >>=-eq-ok (validate accepts_date resolver variables (suc depth) domain) _ k3 in
        let (hc, k5) = require-eq-ok (is_collection (λ u. same_type u item) a.0) _ _ k4 in
        let (b, hb, k6) =
          >>=-eq-ok (validate accepts_date resolver (bind s item variables) (suc depth) body) _
            k5 in
        let (hb1, k7) = require-eq-ok (same_type b.0 boolean_type) _ _ k6 in
        let (t, ht, k8) = >>=-eq-ok (from_wire value_type) _ k7 in
        let (ht1, k9) = require-eq-ok (same_type t boolean_type) _ _ k8 in
        let named : key_text name ≡ s = ap key_text (ref_of-str name s hs) in
        let run =
          λ (d : Datum). evaluate accepts_date resolver (bind (key_text name) d values) body in
        let each : (d : Datum) → has_type d item ≡ true → Gives Raises (OfType b.0) (run d) =
          λ d hd.
            validate-Gives (bind s item variables) (bind (key_text name) d values) (suc depth) body
              (rw named (Fits-bind s item d variables values f hd)) hb in
        subst
          (λ x. Gives Raises (OfType x) (
            evaluate accepts_date resolver values
              (quantifier quant name bound domain body value_type)))
          (ap (λ (r : TypeNode × ℕ). r.0) (ok-injective (boolean_type, suc (a.1 + b.1)) p k9))
          (bind-Gives Raises (OfType a.0) (OfType boolean_type)
            (evaluate accepts_date resolver values domain) _
            (validate-Gives variables values (suc depth) domain f ha)
            λ d hd. over_elements Raises quant item run (OfType b.0) a.0 d hc hd each)
    validate-Gives variables values depth (call function args value_type) {p} f h =
        let (w, k) = require-eq-ok (not (ltb max_depth depth)) _ _ h in
        let (binding, hb, k1) = >>=-eq-ok (resolved resolver function) _ k in
        let (q, hq, k2) =
          >>=-eq-ok (validate_args accepts_date resolver variables depth args) _ k1 in
        let (hs, k3) = require-eq-ok (same_types q.0 binding.input_types) _ _ k2 in
        let (t, ht, k4) = >>=-eq-ok (from_wire value_type) _ k3 in
        let (ho, k5) = require-eq-ok (same_type t binding.output_type) _ _ k4 in
        subst
          (λ x.
            Gives Raises (OfType x)
              (evaluate accepts_date resolver values (call function args value_type)))
          (ap (λ (r : TypeNode × ℕ). r.0) (ok-injective (binding.output_type, suc q.1) p k5))
          (rw hb (
            bind-Gives Raises (λ ds. have_types ds q.0 ≡ true) (OfType binding.output_type)
              (evaluate_args accepts_date resolver values args) _
              (validate_args-Gives variables values depth args f hq)
              λ ds a.
                keeps function binding ds hb
                  (same_types-have_types q.0 binding.input_types ds hs a)))
    validate-Gives variables values depth (no_node kind) f h = cc

    validate_args-Gives :
        (variables : Dict TypeNode) (values : Dict Datum) (depth : ℕ) (nodes : Nodes)
        {q : List TypeNode × ℕ}
        → Fits variables values
        → validate_args accepts_date resolver variables depth nodes ≡ ok q
        → Gives Raises
            (λ ds. have_types ds q.0 ≡ true)
            (evaluate_args accepts_date resolver values nodes)
    validate_args-Gives variables values depth no_nodes {q} f h =
        subst (λ x. have_types [] x ≡ true)
          (ap (λ (r : List TypeNode × ℕ). r.0) (ok-injective ([], 0) q h)) nil_types
    validate_args-Gives variables values depth (node_and node nodes) {q} f h =
        let (a, ha, k) =
          >>=-eq-ok (validate accepts_date resolver variables (suc depth) node) _ h in
        let (p, hp, k1) =
          >>=-eq-ok (validate_args accepts_date resolver variables depth nodes) _ k in
        subst
          (λ x.
            Gives Raises (λ ds. have_types ds x ≡ true)
              (evaluate_args accepts_date resolver values (node_and node nodes)))
          (ap (λ (r : List TypeNode × ℕ). r.0) (ok-injective (a.0 ∷ p.0, a.1 + p.1) q k1))
          (bind-Gives Raises (OfType a.0) (λ ds. have_types ds (a.0 ∷ p.0) ≡ true)
            (evaluate accepts_date resolver values node) _
            (validate-Gives variables values (suc depth) node f ha)
            λ d hd.
              bind-Gives Raises (λ ds. have_types ds p.0 ≡ true)
                (λ ds. have_types ds (a.0 ∷ p.0) ≡ true)
                (evaluate_args accepts_date resolver values nodes) _
                (validate_args-Gives variables values depth nodes f hp)
                λ ds hs. have_cons d a.0 ds p.0 hd hs)

    validate_elements-Gives :
        (variables : Dict TypeNode) (values : Dict Datum) (depth : ℕ) (item : TypeNode)
        (nodes : Nodes) {q : ℕ × List (List ℕ)}
        → Fits variables values
        → validate_elements accepts_date resolver variables depth item nodes ≡ ok q
        → Gives Raises
            (λ ds. all_have_type (to_data ds) item ≡ true)
            (evaluate_args accepts_date resolver values nodes)
    validate_elements-Gives variables values depth item no_nodes f h = data_nil item
    validate_elements-Gives variables values depth item (node_and node nodes) f h =
        let (a, ha, k) =
          >>=-eq-ok (validate accepts_date resolver variables (suc depth) node) _ h in
        let (e, k1) = require-eq-ok (same_type a.0 item) _ _ k in
        let (encoding, hn, k2) = >>=-eq-ok (canonical_json (node_json node)) _ k1 in
        let (p, hp, k3) =
          >>=-eq-ok (validate_elements accepts_date resolver variables depth item nodes) _ k2 in
        bind-Gives Raises (OfType a.0) (λ ds. all_have_type (to_data ds) item ≡ true)
          (evaluate accepts_date resolver values node) _
          (validate-Gives variables values (suc depth) node f ha)
          λ d hd.
            bind-Gives Raises (λ ds. all_have_type (to_data ds) item ≡ true)
              (λ ds. all_have_type (to_data ds) item ≡ true)
              (evaluate_args accepts_date resolver values nodes) _
              (validate_elements-Gives variables values depth item nodes f hp)
              λ ds hs. data_cons d item (to_data ds) (sym (same_type-has_type a.0 item d e) ∙ hd) hs

  -- An expression that `build` accepts evaluates, in every environment that gives each of its
  -- variables a value of its type, to a value of the output type, or it raises: when a list is to be
  -- hashed, when the least or the greatest element of nothing is taken, or what a registered function
  -- raises. The registered functions keep their signatures.
  pub build-Gives :
      (variables : Dict TypeNode) (values : Dict Datum) (ast : Node) (e : Expr)
      → Fits variables values
      → build accepts_date resolver ast variables ≡ ok e
      → Gives Raises (OfType e.output_type) (evaluate accepts_date resolver values e.ast)
  unfolding build
  build-Gives variables values ast e f h =
      let (p, hp, k) = >>=-eq-ok (validate accepts_date resolver variables 0 ast) _ h in
      let (hn, k1) = require-eq-ok (not (ltb max_nodes p.1)) _ _ k in
      subst
        (λ (x : Expr).
          Gives Raises (OfType x.output_type) (evaluate accepts_date resolver values x.ast))
        (ok-injective (record { ast = ast; output_type = p.0 }) e k1)
        (validate-Gives variables values 0 ast f hp)
