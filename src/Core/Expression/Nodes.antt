-- ===== src/Core/Expression/Nodes.antt =====
-- src/auditspec/core/expression.py: `_validate_node` and `_evaluate_node`.
pub mod Gives
pub mod Sound
mod Tests
use auditspec.Prelude.{
  ℕ, zero, suc, ◌+◌, String, Bool, true, false, not, ◌&&◌, ◌||◌, Option, none, some, List, [], ◌∷◌,
  every, ltb, if◌then◌else◌,
}
use auditspec.Prelude.Text.{◌≟◌, contains}
use auditspec.Prelude.Dict.{Dict, find}
use auditspec.Prelude.Result.{
  Error, Result, ok, err, wire_error, type_error, key_error, require, ◌>>=◌, ◌>>◌,
}
use auditspec.Core.Value.{
  Value, null, bool, int, str, arr, obj, other, Items, nil, cons, Fields, end, field,
}
use auditspec.Core.Canonical.{canonical_json}
use auditspec.Core.Wire.{TypeNode, scalar, optional, list, set, map, record_of, from_wire}
use auditspec.Core.Expression.Datum.{
  Datum, boolean, sequence, frozenset, Data, empty, more, to_data, set_of, is_true,
}
use auditspec.Core.Expression.Decode.{ref_of, decode}
use auditspec.Core.Expression.Encoded.{CanonicalValue, to_json, is_sorted_unique}
use auditspec.Core.Expression.Operators.{
  Op, not_, and_, or_, eq, neq, lt, lte, gt, gte, in_, contains as contains_, is_null, coalesce,
  if_then_else, add, sub, mul, count, sum, min, max, all_equal, unknown_op, same_type,
  is_collection, boolean_type, operator_type, elements, apply_operator,
}
use auditspec.Core.Expression.Tree.{
  Node, literal, variable, collection, operator, quantifier, call, no_node, Nodes, no_nodes,
  node_and, node_json,
}

pub record FunctionBinding : Type 0 where
  pub input_types : List TypeNode
  pub output_type : TypeNode
  pub implementation : List Datum → Result Datum

abbrev pub is_bound : Option TypeNode → TypeNode → Bool
is_bound none t = false
is_bound (some u) t = same_type u t

abbrev pub same_types : List TypeNode → List TypeNode → Bool
same_types [] [] = true
same_types (a ∷ as_) (b ∷ bs) = same_type a b && same_types as_ bs
same_types [] (b ∷ bs) = false
same_types (a ∷ as_) [] = false

abbrev pub is_empty_args : Nodes → Bool
is_empty_args no_nodes = true
is_empty_args (node_and n ns) = false

-- `TypeNode(collection_type, item=element_type)`
abbrev pub collection_of : String → TypeNode → TypeNode
collection_of kind item = if kind ≟ "list" then list item else set item

abbrev pub resolved : Option (Value → Result FunctionBinding) → Value → Result FunctionBinding
resolved none f = err (wire_error "Call requires a pinned function resolver")
resolved (some resolve) f = resolve f

abbrev pub max_depth : ℕ
max_depth = 100000

abbrev pub within : ℕ → Result (Unit {0})
within depth =
    require (not (ltb max_depth depth)) (wire_error "invalid or over-deep expression node")

abbrev pub not_boolean : Error
not_boolean = wire_error "quantifier body/output must be Boolean"

abbrev pub call_mismatch : Error
call_mismatch = wire_error "Call signature mismatch"

abbrev pub named_value : Option Datum → Result Datum
named_value none = err (wire_error "missing expression variable")
named_value (some d) = ok d

-- `values[name]`
abbrev pub value_of_name : Value → Dict Datum → Result Datum
value_of_name (str name) values = named_value (find name values)
value_of_name _ values = err (wire_error "missing expression variable")

-- `items if collection_type == "list" else frozenset(items)`
abbrev pub collect : String → Data → Result Datum
collect kind ds =
    let as_set = set_of ds >>= λ ones. ok (frozenset ones) in
    if kind ≟ "list" then ok (sequence ds) else as_set

-- The body's truth at each item; all are asked.
unfoldable pub answers : (Datum → Result Datum) → Data → Result (List Bool)
unfolding is_true
answers f empty = ok []
answers f (more d ds) = f d >>= λ b. answers f ds >>= λ rest. ok (is_true b ∷ rest)

abbrev pub quantified : String → List Bool → Bool
quantified q bs = if q ≟ "forall" then every (λ b. b) bs else not (every (λ b. not b) bs)

abbrev pub key_text : Value → String
key_text (str s) = s
key_text _ = ""

-- One more binding of a dict, in front.
abbrev pub bind : {A : Type 0} → String → A → Dict A → Dict A
bind name value d = (name, value) ∷ d

-- `Expr`, without its digest and its display: nothing changes the tree.
pub record Expr : Type 0 where
  pub ast : Node
  pub output_type : TypeNode

abbrev pub max_nodes : ℕ
max_nodes = 100000

module _ (accepts_date : List ℕ → Bool) (resolver : Option (Value → Result FunctionBinding)) where
  unfoldable mutual
    unfolding decode from_wire same_type operator_type canonical_json node_json is_sorted_unique

    pub validate : Dict TypeNode → ℕ → Node → Result (TypeNode × ℕ)
    validate variables depth (literal value_type value) =
        within depth
        >> (from_wire value_type >>= λ t. decode accepts_date value t >>= λ d. ok (t, 1))
    validate variables depth (variable name value_type) =
        within depth
        >> (ref_of name >>= λ s. from_wire value_type >>= λ t.
            require (is_bound (find s variables) t) (wire_error "variable type mismatch")
            >> ok (t, 1))
    validate variables depth (collection kind element_type children value_type) =
        within depth
        >> (require (kind ≟ "list" || kind ≟ "set") (wire_error "invalid expression collection")
            >> (from_wire element_type >>= λ item. from_wire value_type >>= λ t.
                require (same_type t (collection_of kind item))
                  (wire_error "collection value_type mismatch")
                >> (validate_elements variables depth item children >>= λ p.
                    require (not (kind ≟ "set") || is_sorted_unique p.1)
                      (wire_error "expression set elements must be sorted-unique")
                    >> ok (collection_of kind item, suc p.0))))
    validate variables depth (operator op args value_type) =
        within depth
        >> (require (not (is_empty_args args)) (wire_error "operator needs arguments")
            >> (validate_args variables depth args >>= λ p. operator_type op p.0 >>= λ result.
                from_wire value_type >>= λ t.
                require (same_type t result) (wire_error "operator value_type mismatch")
                >> ok (result, suc p.1)))
    validate variables depth (quantifier q name bound domain body value_type) =
        within depth
        >> (require (q ≟ "forall" || q ≟ "exists") (wire_error "unknown quantifier")
            >> (ref_of name >>= λ s. from_wire bound >>= λ item.
                validate variables (suc depth) domain >>= λ a.
                require (is_collection (λ u. same_type u item) a.0)
                  (wire_error "quantifier domain/binding mismatch")
                >> (validate (bind s item variables) (suc depth) body >>= λ b.
                    require (same_type b.0 boolean_type) not_boolean
                    >> (from_wire value_type >>= λ t.
                        require (same_type t boolean_type) not_boolean
                        >> ok (boolean_type, suc (a.1 + b.1))))))
    validate variables depth (call function args value_type) =
        within depth
        >> (resolved resolver function >>= λ binding. validate_args variables depth args >>= λ p.
            require (same_types p.0 binding.input_types) call_mismatch
            >> (from_wire value_type >>= λ t.
                require (same_type t binding.output_type) call_mismatch
                >> ok (binding.output_type, suc p.1)))
    validate variables depth (no_node kind) = err (wire_error "unknown expression node")

    -- The types of the arguments, and how many nodes they have.
    pub validate_args : Dict TypeNode → ℕ → Nodes → Result (List TypeNode × ℕ)
    validate_args variables depth no_nodes = ok ([], 0)
    validate_args variables depth (node_and node nodes) =
        validate variables (suc depth) node >>= λ a.
        validate_args variables depth nodes >>= λ p. ok (a.0 ∷ p.0, a.1 + p.1)

    -- How many nodes the elements have, and their encodings.
    pub validate_elements : Dict TypeNode → ℕ → TypeNode → Nodes → Result (ℕ × List (List ℕ))
    validate_elements variables depth item no_nodes = ok (0, [])
    validate_elements variables depth item (node_and node nodes) =
        validate variables (suc depth) node >>= λ a.
        require (same_type a.0 item) (wire_error "collection element type mismatch")
        >> (canonical_json (node_json node) >>= λ encoding.
            validate_elements variables depth item nodes >>= λ p. ok (a.1 + p.0, encoding ∷ p.1))

  unfoldable mutual
    unfolding decode from_wire apply_operator answers set_of

    pub evaluate : Dict Datum → Node → Result Datum
    evaluate values (literal value_type value) =
        from_wire value_type >>= λ t. decode accepts_date value t
    evaluate values (variable name value_type) = value_of_name name values
    evaluate values (collection kind element_type children value_type) =
        evaluate_args values children >>= λ ds. collect kind (to_data ds)
    evaluate values (operator op args value_type) =
        evaluate_args values args >>= λ ds. apply_operator op ds
    evaluate values (quantifier q name bound domain body value_type) =
        evaluate values domain >>= λ d. elements d >>= λ ds.
        answers (λ item. evaluate (bind (key_text name) item values) body) ds >>= λ bs.
        ok (boolean (quantified q bs))
    evaluate values (call function args value_type) = resolved resolver function >>= λ binding.
        evaluate_args values args >>= λ ds. binding.implementation ds
    evaluate values (no_node kind) = err (wire_error "expression node is not executable")

    pub evaluate_args : Dict Datum → Nodes → Result (List Datum)
    evaluate_args values no_nodes = ok []
    evaluate_args values (node_and node nodes) =
        evaluate values node >>= λ d. evaluate_args values nodes >>= λ ds. ok (d ∷ ds)

  -- `Expr.build`
  unfoldable pub build : Node → Dict TypeNode → Result Expr
  unfolding validate
  build ast variables = do
    p ← validate variables 0 ast
    require (not (ltb max_nodes p.1)) (wire_error "expression exceeds MAX_EXPR_AST_NODES")
    ok (record { ast = ast; output_type = p.0 })
