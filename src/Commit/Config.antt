-- ===== src/Commit/Config.antt =====
-- generateCommitImageConfig of pkg/ocistore/commit.go, and the options of the new image.
use containerdosstore.Prelude.{
  ℕ, String, Option, none, some, List, [], ◌∷◌, ◌++◌, ◌==◌, Map, if◌then◌else◌,
}
use containerdosstore.Services.Types.{Digest, ImageConfig}

abbrev pub empty_gz_layer : Digest
empty_gz_layer = "sha256:4f4fb700ef54461cfa02571ae0db9a0dc1e0cdb5577484a6d75e68dc38e8acc1"

-- `none` is a nil slice.
pub record Changes : Type 0 where
  pub cmd : Option (List String)
  pub entrypoint : Option (List String)

pub record ImgOpts : Type 0 where
  pub author : String
  pub message : String
  pub ref : String
  pub changes : Changes
  pub labels : Map String

abbrev pub no_img_opts : ImgOpts
no_img_opts = record {
  author = "";
  message = "";
  ref = "";
  changes = record { cmd = none; entrypoint = none };
  labels = [];
}

-- The zero value of ocispec.Image
abbrev pub empty_image_config : ImageConfig
empty_image_config = record {
  architecture = "";
  os = "";
  variant = "";
  created = none;
  author = "";
  config = record { cmd = none; entrypoint = none; rest = "" };
  rootfs_type = "";
  diff_ids = [];
  history = [];
}

-- `if changed != nil { old = changed }`
abbrev pub override {ℓ} : {A : Type ℓ} → Option A → Option A → Option A
override none old = old
override (some new) old = some new

-- `if s == "" { s = default }`
abbrev pub default_to : String → String → String
default_to s default = if s == "" then default else s

-- The machine's architecture and system, and the time of the call, are arguments. The author that
-- the source writes back into the options is read no further.
unfoldable pub generate_commit_image_config :
    String → String → ℕ → ImageConfig → Digest → ImgOpts → ImageConfig
generate_commit_image_config go_arch go_os time base diff_id opts =
    let author = default_to opts.author base.author in
    record {
      architecture = default_to base.architecture go_arch;
      os = default_to base.os go_os;
      variant = "";
      created = some time;
      author = author;
      config = record (base.config) {
        cmd = override opts.changes.cmd base.config.cmd;
        entrypoint = override opts.changes.entrypoint base.config.entrypoint;
      };
      rootfs_type = "layers";
      diff_ids = base.diff_ids ++ (diff_id ∷ []);
      history =
          base.history
          ++ (record {
            created = some time;
            created_by = "";
            author = author;
            comment = opts.message;
            empty_layer = diff_id == empty_gz_layer;
          }
              ∷ []);
    }
