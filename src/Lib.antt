-- ===== src/Lib.antt =====
-- Jacquard: the structural core of src/weave_frontend. Agents edit programs as trees of
-- S-expression nodes with stable ids; every edit is published as an immutable revision under
-- a branch, by compare and set on the branch's head, and branches are merged three ways on
-- node ids.
--
-- The parts, and the files that model them (paths are below src/weave_frontend/):
--
--   Sexpr/Runtime: what the code takes from Python: floats (isfinite, float(), repr, ==) as
--     the record Runtime over a type F, the digits that `\d` matches as the record Digits.
--     Texts are lists of code points.
--   Sexpr/Node, Sexpr/Atom, Sexpr/Validate: sexpr.py's nodes, make_atom, validate_node and
--     the loop of validate_tree. A node is a typed tree, so the guards on the shape of a JSON
--     object (not a dict, a missing value) have no case; typed_value keeps those on the kinds
--     of values that a handler receives.
--   Sexpr/Walk: walk_nodes, find_node, require_node and find_parent. A generator is the
--     sequence of what it yields, ended by a stop or by the error it raises, so that a search
--     which stops early does not meet a later error.
--   Sexpr/Lexer, Sexpr/Number, Sexpr/Parser: _tokenize, the patterns of _parse_atom,
--     parse_source with its counters. new_node_id is a parameter `fresh` from a counter to an
--     id.
--   Sexpr/Render: render_node with _render_canonical, _flat_text_if_fits, _render_annotated
--     and _render_atom.
--   Edit: the six node edits of concurrent_sexpr.py on a document, with the shared
--     _require_list and _insert_child of sexpr_service.py. Where Python mutates a node found
--     in the tree, the model rebuilds the tree with the node of that id changed.
--   Merge, Merge/Additions, Merge/States: _merge_states and the functions under it, with the
--     list of conflicts threaded through.
--   Revision/Database: the tables of database.py as lists, their foreign keys, unique keys
--     and triggers as guards of each insert. A transaction that fails returns no database, so
--     that it changes nothing. The rows of the documents' table and the snapshot codec are
--     fields of the database: of weave_compress_json only which trees it takes matters, and
--     it raises on others, so that the size of their JSON text is a parameter. Revision ids,
--     which Python draws from uuid4, are drawn from a counter.
--   Revision/Commit: project_id, branch_head, the creation of branches, checkout,
--     _state_for_write and _commit of service.py and concurrent_workspace.py.
--   Revision/History: history_page of service.py, and the reachability guard of revert.py.
--   Revision/Dag: analyze_common_ancestors of revision_dag.py. Revision/Dag/Reaches and
--     Revision/Dag/Common have what the traversal marks, Revision/Dag/Halts its fuel,
--     Revision/Dag/Answers what the analysis answers.
--   Revision/Workspace: the handlers of concurrent_sexpr.py and concurrent_workspace.py, and
--     merge of service.py, as they read a head, compute a tree and publish it.
--   Batch, Batch/Input, Batch/Publish: batch_edit.py. Input reads the fields of a raw
--     operation, Batch has the six handlers, their dispatch and the loop of transform,
--     Publish has apply and _commit_if_head. Two ids are at hand for each operation, from
--     `fresh`.
--   Batch/Errors, Batch/Store: what batches raise, and batches as operations on the store.
--   Candidate, Candidate/Table, Candidate/Qualify: edit_candidates.py and its tables in
--     database.py. Each method reads the store and then runs its transaction, which is a
--     definition of its own. The compiler's answer and the order of the uuids of
--     qualifications are parameters.
--   Candidate/Transactions, Candidate/Calls: the transactions of candidates and of the
--     workspace in any order, and the methods as transactions. Candidate/Rows and
--     Candidate/Effects invert the statements and the transactions; Candidate/Ancestry has
--     the chain of edits; Candidate/Invariants, Lifecycle, Publishing, Edits and Evidence
--     have the theorems.
--   Retention, Retention/Policy: artifacts/retention/policy.py and the choice of planner.py.
--     What the catalog reads and the patterns of artifact ids are parameters.
--     Retention/Sorting has Python's stable sort, Retention/Safety and Retention/Rules the
--     theorems.
--   Revision/Reachable: the operations of Revision/Commit and Revision/Workspace as steps
--     from database to database, and what a store in use can be.
--   Examples: concrete data and runs.
--
-- Fuel. validate_tree has as many rounds as the tree has nodes, since each round visits one.
-- parse_one takes two calls a token, and a token takes a character. The traversal of
-- ancestors queues at most each edge once a side. _edit_history has as many rounds as ids
-- were drawn, of which every round passes a smaller one on sound tables. history_page has as
-- many rounds as its limit. When fuel runs out a function answers the error out_of_fuel,
-- which the code does not have.
--
-- Not modelled: text that only a user reads (messages, authors, times, payloads of
-- operations), the JSON encoding of stored trees and their hashes, the schema migration, the
-- compiler bridge, builds and tests, artifacts on disk, sandboxes, backups, and the
-- registration of tools.
pub mod Prelude
pub mod Error
pub mod Limits
pub mod Sexpr
pub mod Edit
pub mod Merge
pub mod Revision
pub mod Batch
pub mod Candidate
pub mod Retention
pub mod Examples
