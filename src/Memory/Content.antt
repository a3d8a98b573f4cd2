-- ===== src/Memory/Content.antt =====
-- What is relied on in the content store, for the services in memory.
use containerdosstore.Prelude.{
  String, Bool, Option, none, some, ◌≡◌, arith, eq_iff, Map, lookup, lookup-insert,
}
use containerdosstore.Exec.{ok}
use containerdosstore.Services.Types.{Digest, Descriptor}
use containerdosstore.Commit.Stored.{ContentLaws}
use containerdosstore.Memory.State.{Store, Blob}
use containerdosstore.Memory.Runs.{memory, memory_runs, with_ctx, write_blob}

abbrev pub labels : Store → Digest → Option (Map String)
labels s d = lookup d s.labels

pub stores :
    (ctx : Option Bool) (b : Blob) (d : Descriptor) (m : Map String) (s : Store)
    → (with_ctx ctx (λ _. write_blob b d m) s).0 ≡ ok tt
    → labels s d.digest ≡ none
    → labels (with_ctx ctx (λ _. write_blob b d m) s).1 d.digest ≡ some m
unfolding memory_runs
stores none b d m s e new = cc
stores (some x) b d m s e new =
    ground (arith, new, lookup-insert d.digest d.digest m s.labels, eq_iff d.digest d.digest)

pub keeps :
    (ctx : Option Bool) (b : Blob) (d : Descriptor) (m : Map String) (s : Store) (g : Digest)
    (m' : Map String)
    → labels s g ≡ some m'
    → labels (with_ctx ctx (λ _. write_blob b d m) s).1 g ≡ some m'
unfolding memory_runs
keeps none b d m s g m' e = e
keeps (some x) b d m s g m' e =
    ground (arith, e, lookup-insert d.digest g m s.labels, eq_iff d.digest g)

unfoldable pub memory_content : ContentLaws memory
unfolding memory_runs
memory_content = record {
  labels = labels;
  write_stores = λ ctx ref b d m s e new. stores ctx b d m s e new;
  write_keeps = λ ctx ref b d m s g m' e. keeps ctx b d m s g m' e;
}
