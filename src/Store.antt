-- ===== src/Store.antt =====
-- internal/store: blob addressing, the metadata blob, the index, the operations on a store and the
-- passes over its files.
pub mod LogicalPath
pub mod Types
pub mod Core
pub mod Act
pub mod Ops
pub mod Lawful
pub mod Names
pub mod PutEffect
pub mod GetPut
pub mod RemoveEffect
pub mod Frame
pub mod Moves
pub mod Blobs
pub mod BlobId
pub mod Scan
pub mod Bundles
pub mod Rebuild
pub mod Orphans
pub mod OpenIdentity
pub mod VersionFloor
pub mod Rekey
pub mod Rotation
pub mod Swap
pub mod Commit
pub mod Opens
pub mod Prune
pub mod Retire
pub mod Survival
pub mod Twice
pub mod History
pub mod Refinement
