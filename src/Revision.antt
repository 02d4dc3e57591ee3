-- ===== src/Revision.antt =====
-- service.py and revision_dag.py: revisions, branches and their publication.
pub mod Database
pub mod Commit
pub mod Branches
pub mod Reachable
pub mod History
pub mod Dag
pub mod Workspace
