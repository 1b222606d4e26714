-- ===== src/Tree.antt =====
-- internal/core/tree: the page tree of a wiki.
pub mod Node
pub mod Slug
pub mod State
pub mod SlugPath
pub mod Index
pub mod Positions
pub mod Invariant
pub mod Depth
pub mod Alike
pub mod Registered
pub mod Move
pub mod Sort
pub mod Delete
pub mod Create
pub mod Edit
pub mod Paths
pub mod Ensure
pub mod Calls
pub mod Subtree
