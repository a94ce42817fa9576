-- ===== src/Terminal.antt =====
-- What the client keeps about terminals.
pub mod CommandFence
pub mod DetachedOutput
pub mod Scanner
pub mod SavedOutput
pub mod SavedPages
pub mod SavedRows
pub mod Search
pub mod Sessions
