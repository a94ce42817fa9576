-- ===== src/Worktree.antt =====
-- What the client keeps about worktrees.
pub mod Lifecycle
