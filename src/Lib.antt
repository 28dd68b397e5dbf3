-- ===== src/Lib.antt =====
-- A verification library of AuditSpec: the finite calculus of auditability of the compiler's core.
--
-- The program compiles a claim about an agent's run into a contract: which evidence mechanisms must
-- run so that the claim can be decided from what they record. The core works on finite tables of
-- worlds. Values are JSON; their canonical encoding serves as the key of every comparison between
-- certificates; the calculus of the information order decides whether evidence determines a claim,
-- which mechanisms suffice at the least cost, and whether the evidence still decides the claim after
-- a lifecycle transformation; a state machine records how far a claim has come; a signed append-only
-- vault archives the evidence, with retention, legal holds, deletion and recovery. Beside the core, the
-- topology check proves that a mediator stands on every path of a deployment's channel.
--
-- Files, by the part of the program that they model (paths of the repository):
--   Prelude                 names of the libraries, lists, orders, texts, finite sets, combinations
--                           in the order of itertools, results for code that raises
--   Core/Value              the Python values that the core handles, and their ==
--   Core/Canonical          src/auditspec/core/canonical.py: _quote, _utf16_sort_key, canonical_json
--   Core/InformationOrder   src/auditspec/core/information_order.py:
--     Closure               _dependency_closure; Needs is its specification
--     Rows                  _identifier, _json, _channel_rows, _contract_rows, _mechanisms
--     Contract              _critical_pairs, compile_minimum_contract, _analysis_incomplete; IsContract
--                           and IsCertificate are its specification
--     Twin                  _first_twin, _partition, _partition_lifecycle
--     Auditability          analyze_auditability, semantic_audit_horizon
--     Lifecycle             _lifecycle_rows, analyze_lifecycle_transformation
--   Core/StateMachine       src/auditspec/core/state_machine.py: the states, the edges, attempt;
--                           Reachable is the relation of its steps
--   Core/MechanismIr        src/auditspec/core/mechanism_ir.py: the dependency relation of
--                           MechanismCatalog, its checks, closure and closed test
--   Core/EvidenceVault      src/auditspec/core/evidence_vault.py:
--     Records, Checks       the bodies of the journal's events, the checks of texts
--     Chain, Tables, Fold   _verify_event and the two loops of replay, with
--     Retirements, Commits  _validate_retirement and _deletion_commit_body
--     Replay                EvidenceVault, replay, _append_event, _put_object
--     Retention, Recovery   _retention_decision_from_state, _recover_locked
--     Operations, Archiving, Deletion   the locked mutations, one function each
--     Trust                 VaultTrustPins, __init__
--     Holds, Commands       the invariant of the legal holds; Command is a mutation with its
--                           arguments, Course the relation of recorded events, Reached that of the
--                           public methods; Finishing and Crashed are about recovery
--   Core/Wire               src/auditspec/core/wire.py: TypeNode, from_wire, to_wire,
--                           infer_scalar_type
--   Core/Wire/Decimal       the same file: ExactDecimal, its wire form and __add__
--   Core/Expression         src/auditspec/core/expression.py and core/wire.py:
--     Datum                 the Python values of the types, with ==, hash and truth
--     Encoded, Decode       decode_canonical_value with what it reads, _require_python_type
--     Operators             _operator_type and the operations of _evaluate_node
--     Operators/Typed       what an operator gives on arguments of the types it accepts
--     Tree, Nodes           the nodes; _validate_node, _evaluate_node, Expr.build; Gives and Sound are about
--                           the values and the exceptions of validated expressions
--   Topology                src/auditspec/topology.py: verify_mediation, _shortest_path
--
-- How the code is read. A dict is a list of its members in their order, a set a list without
-- repetition, an exception a result. The mutable state of a loop is its arguments. The while loop
-- of _dependency_closure runs on fuel, the number of selected and of catalogued mechanisms: each
-- round takes one pending entry, and a mechanism is appended once at most; running out is a third
-- outcome, which Decides excludes. The closure of MechanismIr is likewise, and the depth-first
-- search of _assert_acyclic nests its calls no deeper than one more than the number of names; its
-- verdict has no error for want of fuel. The breadth-first search of _shortest_path has one more
-- than the number of edges, since each node enters the queue once; SearchVerdict excludes the want
-- of fuel. from_wire has 33 less its depth, which the
-- code bounds by 32. The other loops run over lists. The decimal digits of an integer in the safe range are
-- written with fuel 17, one more than the digits that it can have. The indexes of rows and costs
-- are natural numbers, as in Python they do not overflow; where a certificate is digested, one beyond
-- 2 ** 53 - 1 is an error. Among the requirements of a mechanism, a value that is
-- not JSON is taken for a float.
--
-- A node of an expression and a canonical value are data types with the keys that their kind has, so
-- that an object with other keys is outside the model; validation and evaluation recurse on them. A
-- resolver of functions and whether strptime accepts a date are parameters. The order in which a
-- frozenset is iterated is that of the list that stands for it; of the values that are equal the
-- last one stands in it.
--
-- The journal of the Evidence Vault is the list of its events in the order of their file names,
-- which are not modelled, and the object store a dict from digests to files. The body of an event is
-- a record with the fields of the JSON object, so that a body of another shape is outside the model;
-- a field that some schema versions leave out is an option, and constant fields that nothing reads
-- are left out. SHA-256, Ed25519 and datetime.fromisoformat are the fields of World. A call that
-- raises returns the error alone: what it had already written is not in the result, except that a
-- deletion that stops between its two events is stated as the vault with the first one. Where a message
-- is formatted, the error holds its constant part.
--
-- What is not modelled. A digest (SHA-256) names a part of a certificate that the model keeps
-- itself: pair_id, the roots and the verify functions, which build the certificate again and
-- compare, are left out; so are retrieval for audit and re-verification in the Evidence Vault, its
-- lock and its file writes. Floats, bytes and objects in a value are one constructor, which has no
-- encoding. A native text has no lone surrogate. Of the rest of the package, the
-- legacy syntax of expressions, canonical_value, the finite backend and the runtime are not modelled
-- here, nor the command line, the sandboxed verifiers and the benchmark adapters, which are mostly
-- input and output.
mod Prelude
pub mod Core
pub mod Topology
