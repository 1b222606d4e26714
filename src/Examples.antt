-- ===== src/Examples.antt =====
-- Runs of the models at concrete inputs.
mod Wiki
mod Trees
mod Edits
mod Recreate
mod Bulk
mod Routes
mod Shares
mod Scopes
mod Slugs
mod Restores
mod Limits
mod Imports
mod Logins
mod Entries
mod Paths
