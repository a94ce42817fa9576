-- ===== src/PaneLayout.antt =====
-- src/lib/pane-layout.js: a worktree's pane arrangement as a binary split tree.
pub mod Tree
pub mod Edit
pub mod Normalize
pub mod Geometry
pub mod Tests
