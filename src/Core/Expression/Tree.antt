-- ===== src/Core/Expression/Tree.antt =====
-- src/auditspec/core/expression.py: the nodes of an expression, and their JSON objects.
use auditspec.Prelude.{String}
use auditspec.Core.Value.{Value, str, arr, obj, Items, nil, cons, Fields, end, field}
use auditspec.Core.Expression.Encoded.{CanonicalValue, to_json}
use auditspec.Core.Expression.Operators.{
  Op, not_, and_, or_, eq, neq, lt, lte, gt, gte, in_, contains as contains_, is_null, coalesce,
  if_then_else, add, sub, mul, count, sum, min, max, all_equal, unknown_op,
}

-- A node of the tree: the JSON object with exactly the keys of its kind.
mutual
  pub data Node : Type 0 where
    -- value_type, value
    literal : Value → CanonicalValue → Node
    -- name, value_type
    variable : Value → Value → Node
    -- collection_type, element_type, elements, value_type
    collection : String → Value → Nodes → Value → Node
    -- op, args, value_type
    operator : Op → Nodes → Value → Node
    -- quantifier, the variable's name and value_type, domain, body, value_type
    quantifier : String → Value → Value → Node → Node → Value → Node
    -- function, args, value_type
    call : Value → Nodes → Value → Node
    -- A field access, or a kind that is unknown.
    no_node : String → Node

  pub data Nodes : Type 0 where
    no_nodes : Nodes
    node_and : Node → Nodes → Nodes

abbrev pub op_text : Op → String
op_text not_ = "not"
op_text and_ = "and"
op_text or_ = "or"
op_text eq = "eq"
op_text neq = "neq"
op_text lt = "lt"
op_text lte = "lte"
op_text gt = "gt"
op_text gte = "gte"
op_text in_ = "in"
op_text contains_ = "contains"
op_text is_null = "is_null"
op_text coalesce = "coalesce"
op_text if_then_else = "if_then_else"
op_text add = "add"
op_text sub = "sub"
op_text mul = "mul"
op_text count = "count"
op_text sum = "sum"
op_text min = "min"
op_text max = "max"
op_text all_equal = "all_equal"
op_text (unknown_op name) = name

abbrev node_of : String → Fields → Value
node_of kind rest = obj (field "node" (str kind) rest)

-- The JSON object.
unfoldable mutual
  unfolding to_json

  pub node_json : Node → Value
  node_json (literal t v) = node_of "literal" (field "value_type" t (field "value" (to_json v) end))
  node_json (variable name t) = node_of "variable" (field "name" name (field "value_type" t end))
  node_json (collection kind item ns t) = node_of "collection" (
      field "collection_type" (str kind) (
        field "element_type" item
          (field "elements" (arr (nodes_json ns)) (field "value_type" t end))))
  node_json (operator op ns t) = node_of "operator" (
      field "op" (str (op_text op)) (field "args" (arr (nodes_json ns)) (field "value_type" t end)))
  node_json (quantifier q name bound domain body t) = node_of "quantifier" (
      field "quantifier" (str q) (
        field "variable" (obj (field "name" name (field "value_type" bound end))) (
          field "domain" (node_json domain)
            (field "body" (node_json body) (field "value_type" t end)))))
  node_json (call f ns t) =
      node_of "call"
        (field "function" f (field "args" (arr (nodes_json ns)) (field "value_type" t end)))
  node_json (no_node kind) = node_of kind end

  nodes_json : Nodes → Items
  nodes_json no_nodes = nil
  nodes_json (node_and n ns) = cons (node_json n) (nodes_json ns)
