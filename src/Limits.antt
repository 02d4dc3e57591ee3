-- ===== src/Limits.antt =====
-- structural_limits.py and revision_limits.py: the ceilings, and the integer checks.
use weave_jacquard.Prelude.{ℕ, ◌*◌, Bool, leb, ◌&&◌, if◌then◌else◌}
use weave_jacquard.Prelude.Int.{ℤ, pos}
use weave_jacquard.Error.{Code, Result, ok, err, validation}

abbrev pub max_source_bytes : ℕ
max_source_bytes = 4 * 1024 * 1024

abbrev pub max_tree_depth : ℕ
max_tree_depth = 512

abbrev pub max_tree_nodes : ℕ
max_tree_nodes = 100_000

abbrev pub max_atom_value_bytes : ℕ
max_atom_value_bytes = 1024 * 1024

abbrev pub max_tree_value_bytes : ℕ
max_tree_value_bytes = 8 * 1024 * 1024

abbrev pub max_rendered_source_bytes : ℕ
max_rendered_source_bytes = 16 * 1024 * 1024

abbrev pub max_revision_dag_nodes : ℕ
max_revision_dag_nodes = 65_536

abbrev pub max_revision_dag_edges : ℕ
max_revision_dag_edges = 131_072

abbrev pub max_branch_history_page_size : ℕ
max_branch_history_page_size = 200

-- A value of any Python type, as far as the integer checks tell them apart.
pub data Argument : Type 0 where
  integer : ℤ → Argument
  boolean : Bool → Argument
  other : Argument

-- The bounds are constants of the program, none of them negative.
unfoldable pub require_bounded_int : Argument → Code → ℕ → ℕ → Result ℕ
require_bounded_int (integer (pos n)) c lo hi =
    if leb lo n && leb n hi then ok n else err (validation c)
require_bounded_int _ c lo hi = err (validation c)

unfoldable pub require_nonnegative_int : Argument → Code → Result ℕ
require_nonnegative_int (integer (pos n)) c = ok n
require_nonnegative_int _ c = err (validation c)
