-- ===== src/Lib.antt =====
-- Verification of the OCI store of this repository: an image and snapshot store that runs the
-- containerd client in the same process, with no daemon.
--
-- The program
--   pkg/ocistore holds the OCIStore. A caller makes one (NewOCIStore), sets it up (Init) and then
--   pulls, imports, unpacks, mounts, commits and deletes images. Every method first asks whether the
--   store is set up; nearly all then take a lease, so that the garbage collector leaves alone what
--   they write, and give it back in a deferred function. Images are unpacked into a chain of
--   snapshots, one for each layer; a mount adds one more on top, and Commit turns that into a layer
--   of a new image.
--
-- The files
--   Prelude, Prelude/Maps, Prelude/Decimal  names of the libraries, Go maps, decimal numbers
--   Exec, Exec/*                            Go functions that change the world: an outcome is a value,
--                                           an error or a panic; defer; the rules for them
--   World, FilePath                         the state of the services and the log; filepath.Join
--   Services, Services/*                    what the program calls and does not implement, and what it
--                                           relies on in the leases
--   OciStore, OciStore/*                    pkg/ocistore/ociStore.go: the receiver, Init, the lease;
--                                           Diff is pkg/ocistore/diff.go
--   Snapshots, Snapshots/*                  pkg/ocistore/snapshots.go; Table holds what is relied on in
--                                           Stat and Remove, Prune follows removeSnapshotsChain on
--                                           the table alone, Description tells what it is to leave
--                                           (prune_all), Pruning what calls it among other calls
--   Image, Image/*                          pkg/ocistore/image.go; Laws holds what is relied on in the
--                                           calls that Delete makes
--   Unpack                                  pkg/ocistore/unpack.go, and ApplyCommitOpts of commit.go
--   Mount, Mount/*                          pkg/ocistore/mount.go, and uniquePart of ociStore.go; Laws
--                                           holds what is relied on in View, Prepare and Mounts,
--                                           Returned the steps of a Mount that returns a key
--   Pull, Pull/*                            pkg/ocistore/pull.go
--   Import, Import/*                        pkg/ocistore/import.go
--   Read, Read/Search                       ReadImageConfig, ReadIndex, ReadManifest of ociStore.go
--   Commit, Commit/*                        pkg/ocistore/commit.go; Returned holds the steps of a Commit
--                                           that returns an image, Images and Snapshot what it leaves,
--                                           Exported its layer and what its target stands for
--   Commands, Commands/*                    cmd and pkg/logger/logger.go: the subcommands; Views and
--                                           Effects follow a process from its flags to the services,
--                                           History runs processes one after another
--   Methods, Methods/*                      the methods side by side and one after another
--   Memory, Memory/*                        services in memory, for the tests
--   Tests, Tests/*                          runs over them, and the theorems at concrete data
--
-- How the code is read
--   A method m of OCIStore is a function m of the receiver and its arguments, into
--   Exec (World S): it takes a world to an outcome and a world. Names are those of the source in
--   snake_case; the unexported x beside an exported X is x_func, Import is import_reader, and List,
--   Get, Update, Create and Delete of images stand in Image. Part of a long function is a function of
--   its own, called where the code stands. A pointer, map or slice that may be nil is an Option. Int
--   is ℤ or ℕ: no number here comes near a bound.
--   The services are a parameter S with a state that only they know: they may return, fail or panic
--   at every call. What is relied on in them are hypotheses: SnapshotLaws, TableFrame,
--   LeaseLaws, DeletionLaws, NamedLeases, UnpackedLaws, MountLaws, CommitLaws, ImageStoreLaws,
--   ContentLaws, BlobLaws, ConsoleFrame and CallsAnswer. LeaseLaws has the condition that `done` gives
--   a held lease back: where it fails the code warns, or says nothing, and the lease stays.
--   removeSnapshotsChain and its callers take fuel, since a snapshotter might answer for ever; more
--   fuel than there are snapshots is enough. All other loops run over lists.
--
-- Not modelled
--   cobra's reading of the command line (its checks of required flags and of groups of flags stand
--   in Commands/Flags, after initCS, where cobra makes them), logrus (the lines that it is given are
--   in the world), the accessor Logger of the OCIStore, whose logger is the log of the world,
--   concurrent callers, expiry of leases, garbage collection, and what stands in vendor, which is
--   Services.
pub mod Prelude
pub mod Exec
pub mod Services
pub mod World
pub mod FilePath
pub mod OciStore
pub mod Snapshots
pub mod Image
pub mod Unpack
pub mod Mount
pub mod Pull
pub mod Import
pub mod Read
pub mod Commit
pub mod Commands
pub mod Methods
pub mod Memory
pub mod Tests
