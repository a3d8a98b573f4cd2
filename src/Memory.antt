-- ===== src/Memory.antt =====
-- A small containerd in memory. It stands for the services where a concrete one is
-- needed, and runs the program in the tests. Nothing of it is code of the program.
mod State
mod Calls
mod Runs
pub mod Laws
pub mod Images
pub mod Answers
pub mod Content
pub mod Deletion
pub mod Named
pub mod Blobs
pub mod Committing
pub mod ImageStore
pub use State.{Store, Blob, config_blob, manifest_blob, index_blob, junk}
unfoldable pub use Runs.{memory, memory_runs}
