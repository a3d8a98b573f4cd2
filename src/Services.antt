-- ===== src/Services.antt =====
-- What the program calls and does not implement: the containerd client with its content, image,
-- lease, diff and snapshot services, mounts, the unpacker, JSON and the clock. `Services` has one
-- operation for each call, on a state that only the services know.
pub mod Types
pub mod Leases
pub mod Frame
pub mod Ends
pub mod Deletion
pub mod Named
use containerdosstore.Prelude.{ℕ, ℤ, String, Bool, Option, List, ◌≡◌, Map}
use containerdosstore.Exec.{Error, Outcome, Exec}
use Types.{Digest, Descriptor, Image, Info, ImageConfig, Manifest, Index, ContentInfo}

-- The lease options that the program passes (github.com/containerd/containerd/v2/core/leases).
pub data LeaseOpt : Type 0 where
  with_id : String → LeaseOpt
  with_random_id : LeaseOpt
  with_expiration_hours : ℕ → LeaseOpt
  with_label : String → String → LeaseOpt

-- The three results of client.WithLease: a context, `done` and the error.
pub record Leased (Ctx Done : Type 0) : Type 0 where
  pub ctx : Option Ctx
  pub done : Option Done
  pub error : Option Error

pub record Services : Type 1 where
  pub State : Type 0
  -- Contexts, the database, the client, and the `done` function of client.WithLease.
  pub Ctx : Type 0
  pub Db : Type 0
  pub Client : Type 0
  pub Done : Type 0
  pub Platform : Type 0
  pub Snapshotter : Type 0
  pub Mounts : Type 0
  pub Unpacker : Type 0
  pub Bytes : Type 0
  pub Reader : Type 0
  -- The options that callers hand through.
  pub SnapshotOpt : Type 0
  pub DiffOpt : Type 0
  pub ApplyOpt : Type 0
  pub ClientImportOpt : Type 0
  pub RemoteOpt : Type 0
  pub DeleteOpt : Type 0
  -- Set-up
  pub default_strict : Platform
  pub with_namespace : Ctx → String → Ctx
  pub new_snapshotter : String → Exec State Snapshotter
  pub bolt_open : String → Exec State Db
  pub new_content_store : String → Exec State (Unit {0})
  pub db_init : Option Ctx → Db → Exec State (Unit {0})
  pub new_client : Db → Snapshotter → Platform → Exec State Client
  -- Leases
  pub with_lease : Option Ctx → List LeaseOpt → Exec State (Leased Ctx Done)
  pub release : Done → Option Ctx → Exec State (Unit {0})
  pub delete_lease : Option Ctx → String → Exec State (Unit {0})
  -- Images
  pub get_image : Option Ctx → String → Exec State Image
  pub list_images : Option Ctx → List String → Exec State (List Image)
  pub update_image : Option Ctx → Image → List String → Exec State Image
  pub create_image : Option Ctx → Image → Exec State Image
  pub delete_image : Option Ctx → String → List DeleteOpt → Exec State (Unit {0})
  pub import_images : Option Ctx → Reader → List ClientImportOpt → Exec State (List Image)
  pub pull_image : Option Ctx → String → List RemoteOpt → Exec State Image
  pub is_unpacked : Option Ctx → Image → String → Exec State Bool
  pub root_fs : Option Ctx → Image → Exec State (List Digest)
  pub image_config : Option Ctx → Image → Exec State Descriptor
  pub is_pull_unpack : RemoteOpt → Bool
  -- Snapshots
  pub snapshot_service : String → Snapshotter
  pub with_labels : Map String → SnapshotOpt
  pub stat : Snapshotter → Option Ctx → String → Exec State Info
  pub update : Snapshotter → Option Ctx → Info → List String → Exec State Info
  pub mounts : Snapshotter → Option Ctx → String → Exec State Mounts
  pub prepare : Snapshotter → Option Ctx → String → String → List SnapshotOpt → Exec State Mounts
  pub view : Snapshotter → Option Ctx → String → String → List SnapshotOpt → Exec State Mounts
  pub commit : Snapshotter → Option Ctx → String → String → List SnapshotOpt → Exec State (Unit {0})
  pub remove : Snapshotter → Option Ctx → String → Exec State (Unit {0})
  -- The snapshots that Walk hands to its callback, and the error with which it ends.
  pub walk : Snapshotter → Option Ctx → List String → Exec State (List Info × Option Error)
  -- Content, diffs and mounts
  pub read_blob : Option Ctx → Descriptor → Exec State Bytes
  pub write_blob : Option Ctx → String → Bytes → Descriptor → Map String → Exec State (Unit {0})
  pub content_info : Option Ctx → Digest → Exec State ContentInfo
  pub create_diff : Option Ctx → String → Snapshotter → List DiffOpt → Exec State Descriptor
  pub apply_diff : Option Ctx → Descriptor → Mounts → Exec State (Unit {0})
  pub mount_all : Mounts → String → Exec State (Unit {0})
  pub unmount_all : String → ℕ → Exec State (Unit {0})
  pub open_file : String → Exec State Reader
  pub close_file : Reader → Exec State (Unit {0})
  -- The unpacker and the walk over an image's descriptors
  pub new_unpacker :
      Option Ctx
      → Platform
      → String
      → Snapshotter
      → List SnapshotOpt
      → List ApplyOpt
      → Exec State Unpacker
  pub children : Option Ctx → Descriptor → Exec State (List Descriptor)
  pub filter_platforms :
      (Option Ctx → Descriptor → Exec State (List Descriptor))
      → Platform
      → Option Ctx
      → Descriptor
      → Exec State (List Descriptor)
  pub handlers :
      List (Option Ctx → Descriptor → Exec State (List Descriptor))
      → Option Ctx
      → Descriptor
      → Exec State (List Descriptor)
  pub unpack_handler :
      Unpacker
      → (Option Ctx → Descriptor → Exec State (List Descriptor))
      → Option Ctx
      → Descriptor
      → Exec State (List Descriptor)
  pub walk_not_empty :
      Option Ctx
      → (Option Ctx → Descriptor → Exec State (List Descriptor))
      → Descriptor
      → Exec State (Unit {0})
  pub wait : Unpacker → Exec State (Unit {0})
  -- Digests, JSON, the clock, random bytes and the machine
  pub chain_id : List Digest → Digest
  pub from_bytes : Bytes → Digest
  pub parse_digest : String → Outcome Digest
  pub size_of : Bytes → ℕ
  pub is_manifest_type : String → Bool
  pub is_index_type : String → Bool
  pub decode_config : Bytes → Outcome ImageConfig
  pub decode_manifest : Bytes → Outcome Manifest
  pub decode_index : Bytes → Outcome Index
  pub encode_config : ImageConfig → Outcome Bytes
  pub encode_manifest : Manifest → Outcome Bytes
  pub now : Exec State ℕ
  pub nanosecond : Exec State ℕ
  pub random_bytes : Exec State (ℕ × ℕ × ℕ)
  pub format_time : ℕ → String
  pub go_arch : String
  pub go_os : String
