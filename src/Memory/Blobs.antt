-- ===== src/Memory/Blobs.antt =====
-- What is relied on in reading what Commit wrote, for the services in memory.
use containerdosstore.Prelude.{
  String, Bool, true, Option, none, some, ◌≡◌, ◌≢◌, refl, sym, arith, eq_iff, Map, lookup,
  lookup-insert, Option-cases, inl, inr,
}
use containerdosstore.Exec.{ok}
use containerdosstore.Exec.Inversion.{ok_injective}
use containerdosstore.Services.Types.{Digest, Descriptor, Image, Manifest}
use containerdosstore.Commit.Blobs.{BlobLaws}
use containerdosstore.Memory.State.{Store, Blob, manifest_blob}
use containerdosstore.Memory.Runs.{
  memory, memory_runs, with_ctx, write_blob, read_blob, put_new, image_config, is_manifest_type,
  config_desc_of, decode_manifest,
}

abbrev pub blobs : Store → Digest → Option Blob
blobs s g = lookup g s.blobs

put_new-new :
    (k : String) (b : Blob) (m : Map Blob) → lookup k m ≡ none → lookup k (put_new k b m) ≡ some b
unfolding memory_runs
put_new-new k b m new = ground (arith, new, lookup-insert k k b m, eq_iff k k)

put_new-other :
    (k g : String) (b : Blob) (m : Map Blob) → g ≢ k → lookup g (put_new k b m) ≡ lookup g m
unfolding memory_runs
put_new-other k g b m apart = ground (arith, lookup-insert k g b m, eq_iff k g, eq_iff g k)

pub write_puts :
    (ctx : Option Bool) (b : Blob) (d : Descriptor) (m : Map String) (s : Store)
    → (with_ctx ctx (λ _. write_blob b d m) s).0 ≡ ok tt
    → blobs s d.digest ≡ none
    → blobs (with_ctx ctx (λ _. write_blob b d m) s).1 d.digest ≡ some b
unfolding memory_runs
write_puts none b d m s e new = cc
write_puts (some ctx) b d m s e new = put_new-new d.digest b s.blobs new

pub write_leaves :
    (ctx : Option Bool) (b : Blob) (d : Descriptor) (m : Map String) (s : Store) (g : Digest)
    → g ≢ d.digest
    → blobs (with_ctx ctx (λ _. write_blob b d m) s).1 g ≡ blobs s g
unfolding memory_runs
write_leaves none b d m s g apart = refl
write_leaves (some ctx) b d m s g apart = put_new-other d.digest g b s.blobs apart

pub read_gives :
    (ctx : Option Bool) (d : Descriptor) (s : Store) (b : Blob)
    → (with_ctx ctx (λ _. read_blob d) s).0 ≡ ok b
    → blobs s d.digest ≡ some b
unfolding memory_runs
read_gives none d s b e = cc
read_gives (some ctx) d s b e = elim (Option-cases (lookup d.digest s.blobs)) [
  | inl missing ↦ ground (arith, missing)
  | inr (x, there) ↦ ground (arith, there)
]

config_desc_of-manifest :
    (o : Option Blob) (d : Descriptor)
    → config_desc_of o ≡ ok d
    → (b : Blob) × (m : Manifest) × (o ≡ some b) × (decode_manifest b ≡ ok m) × (d ≡ m.config)
unfolding memory_runs
config_desc_of-manifest (some (manifest_blob m)) d e =
    (manifest_blob m, m, refl, refl, sym (ok_injective m.config d e))
config_desc_of-manifest _ d e = cc

pub config_gives :
    (ctx : Option Bool) (img : Image) (s : Store) (d : Descriptor)
    → is_manifest_type img.target.media_type ≡ true
    → (with_ctx ctx (λ _. image_config img) s).0 ≡ ok d
    → (b : Blob) × (m : Manifest) × (blobs s img.target.digest ≡ some b)
      × (decode_manifest b ≡ ok m)
      × (d ≡ m.config)
unfolding memory_runs
config_gives none img s d typed e = cc
config_gives (some ctx) img s d typed e =
    config_desc_of-manifest (lookup img.target.digest s.blobs) d (ground (arith, typed, e))

unfoldable pub memory_blobs : BlobLaws memory
unfolding memory_runs
memory_blobs = record {
  blobs = blobs;
  write_puts = λ ctx ref b d m s e new. write_puts ctx b d m s e new;
  write_leaves = λ ctx ref b d m s g apart. write_leaves ctx b d m s g apart;
  read_gives = read_gives;
  is_manifest = refl;
  config_gives = config_gives;
  blobs-image_config = λ ctx img s. ground arith;
  config_json = λ c c' b e q. ground (arith, e, q);
  manifest_json = λ m m' b e q. ground (arith, e, q);
}
