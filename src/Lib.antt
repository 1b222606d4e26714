-- ===== src/Lib.antt =====
-- Verification library of leafwiki, a wiki server in Go that keeps its pages as files in a tree.
--
-- The parts that are modelled, and how they meet:
--
-- * The page tree (internal/core/tree). Tree/Node has the nodes of page_node.go: a `*PageNode` is
--   an address in a heap, so aliasing is as in the source. Tree/State has `TreeService` with its
--   indexes, the errors of errors.go, the version check of helpers.go, and `NodeStore`, the
--   interface to the files that node_store.go and node_store_write.go write; the disk is a type
--   that only the store reads, and each of its calls may fail.
--   Tree/Index is tree_index.go. tree_mutations.go is in Tree/Create (`createNodeLocked`),
--   Tree/Create/Restore, Tree/Delete, Tree/Edit (`UpdateNode`, `ConvertNode`, `SetPinned`),
--   Tree/Edit/Bulk (`BulkUpdateContent`, whose parallel writes run in any order), Tree/Sort,
--   Tree/Positions and Tree/Move, with their rollbacks, and Tree/Ensure (`EnsurePagePath`).
--   Tree/Calls is the step relation of these calls. Tree/Invariant says when a tree is sound;
--   Tree/Alike, Tree/Create/Longer, Tree/Create/Grown and Tree/Delete/Pruned are the ways in which
--   a change keeps it so, Tree/Registered and Tree/Depth have what follows from it. Tree/Paths is
--   the look-ups by path of tree_reads.go, path_lookup.go and `CalculatePath`. Tree/Subtree is
--   `IsInSubtree`. Tree/Slug and Tree/SlugPath are slug_service.go.
-- * What a share link shows (internal/scopedread). ScopedRead is scope.go and page_reader.go, over
--   the interface `PageSource`, which the tree fills.
-- * Share links (internal/sharing). Sharing is share_link_service.go, share_link_store.go and
--   token.go, over a database whose statements Sharing/Table describes; a share link's scope is
--   what ScopedRead checks.
-- * The restore of a backup (internal/restore). Restore/Job is job.go, and Restore/Gate is
--   writegate.go with the requests around it as a step relation.
-- * The backup (internal/backup). Backup/EntryName is entryname.go.
-- * Signing in (internal/core/auth). Auth/LoginAttempts is login_attempt_tracker.go.
-- * The import of Markdown files (internal/importer). Importer/Plan has the types of planner.go and
--   executor.go. Importer/StoredPlan, Importer/StateFile and Importer/PlanStore are plan_store.go:
--   the plan and its changes, the calls of os and encoding/json, and the store over them.
-- * The HTTP server (internal/http). Http/RateLimiter is middleware/security/rate_limiter.go.
--
-- Base passes on the names of the standard library and has the lemmas that the parts share: Boolean
-- tests, lists over the native numbers, ASCII texts, decimal numbers, the pigeonhole lemma behind
-- the search for a free slug, and the integers. Examples runs the models at concrete inputs.
--
-- Every method of these types holds its object's lock from its first read to its return, so a
-- method is one step, and orders of calls are lists or traces of steps. The share link service has
-- no lock of its own, and each of its methods runs at most one statement under the lock of the
-- store, which is its one step on the table. `Allow` of the limiter locks twice, for the cleanup
-- and for the answer; the model runs them in sequence, each with the clock that it reads.
--
-- Bounds and fuel. Lists of children and times are unbounded. The counter of the write gate is a
-- 64-bit word that wraps. The walks of Tree/Index take fuel `next`, the number of addresses in use,
-- which is more than the levels of a sound tree, and so does `calculate_path`. The search for a
-- free slug takes fuel for two attempts more than there are children. Folding of case is that of
-- ASCII; slugs and titles with other letters are outside the model.
--
-- Parameters: `slug.Make` of gosimple/slug, as a function whose results match the slug pattern or
-- are empty; the printing of times; the clock; `GenerateUniqueID`; the database, hash and base64 of
-- share links; the file layer, as `NodeStore`; the state file of the import with its encoding, as
-- `StateFile`.
--
-- Not modelled: the load of the tree, and its reads of contents and counts; the file layer itself,
-- SQLite stores, HTML and YAML libraries, git transport, and the routing of requests.
pub mod Base
pub mod Tree
pub mod ScopedRead
pub mod Restore
pub mod Http
pub mod Backup
pub mod Auth
pub mod Importer
pub mod Sharing
mod Examples
