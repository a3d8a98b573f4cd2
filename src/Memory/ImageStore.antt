-- ===== src/Memory/ImageStore.antt =====
-- What Commit relies on in the image store, for the services in memory.
use containerdosstore.Prelude.{
  String, ◌==◌, Bool, Option, none, some, List, [], ◌∷◌, ◌++◌, ◌≡◌, refl, arith, eq_iff,
  if◌then◌else◌, Option-cases, inl, inr,
}
use containerdosstore.Exec.{ok}
use containerdosstore.Services.Types.{Image}
use containerdosstore.Image.Laws.{found_image, without}
use containerdosstore.Unpack.Views.{UnpackFrame}
use containerdosstore.Commit.Views.{ReadFrame}
use containerdosstore.Commit.Images.{Stores, ImageStoreLaws}
use containerdosstore.Memory.State.{Store}
use containerdosstore.Memory.Runs.{memory, memory_runs, with_ctx, update_image, put_image}
use containerdosstore.Memory.Images.{images, LeaseFrame-images}

pub ReadFrame-images : ReadFrame memory images
unfolding memory_runs
ReadFrame-images = record {
  now = λ s. refl;
  get_image = λ ctx k s. ground arith;
  image_config = λ ctx i s. ground arith;
  stat = λ sn ctx k s. ground arith;
  mounts = λ sn ctx k s. ground arith;
  read_blob = λ ctx d s. ground arith;
  write_blob = λ ctx ref b d m s. ground arith;
  content_info = λ ctx d s. ground arith;
  create_diff = λ ctx k sn os s. ground arith;
  apply_diff = λ ctx d m s. ground arith;
}

pub UnpackFrame-images : UnpackFrame memory images
unfolding memory_runs
UnpackFrame-images = record {
  is_unpacked = λ ctx i driver s. ground arith;
  new_unpacker = λ ctx p driver sn sos aos s. ground arith;
  walk_not_empty = λ ctx h d s. ground arith;
  wait = λ u s. refl;
}

found_image-snoc :
    (n j : String) (i : Image) (is : List Image)
    → i.name ≡ n
    → found_image j (without n is ++ (i ∷ [])) ≡ (if n == j then some i else found_image j is)
unfolding memory_runs
found_image-snoc n j i [] e = ground (arith, eq_iff i.name j, eq_iff n j)
found_image-snoc n j i (k ∷ is) e =
    ground (arith, found_image-snoc n j i is e, eq_iff k.name n, eq_iff k.name j, eq_iff n j)

put_image-Stores : (i : Image) (s : Store) → Stores i (images s) (images (put_image i s).1)
unfolding memory_runs
put_image-Stores i s = record {
  image = i;
  name = refl;
  target = refl;
  labels = λ k. refl;
  finds = λ j. found_image-snoc i.name j i s.images refl;
}

pub update_image-Stores :
    (ctx : Option Bool) (i : Image) (s : Store) (i' : Image)
    → (with_ctx ctx (λ _. update_image i) s).0 ≡ ok i'
    → Stores i (images s) (images (with_ctx ctx (λ _. update_image i) s).1)
unfolding memory_runs
update_image-Stores none i s i' e = cc
update_image-Stores (some ctx) i s i' e = elim (Option-cases (found_image i.name s.images)) [
  | inl missing ↦ absurd (ground (arith, missing))
  | inr (k, there) ↦ rw (there) (put_image-Stores i s)
]

pub create_image-Stores :
    (ctx : Option Bool) (i : Image) (s : Store) (i' : Image)
    → (with_ctx ctx (λ _. put_image i) s).0 ≡ ok i'
    → Stores i (images s) (images (with_ctx ctx (λ _. put_image i) s).1)
unfolding memory_runs
create_image-Stores none i s i' e = cc
create_image-Stores (some ctx) i s i' e = put_image-Stores i s

unfoldable pub memory_image_store : ImageStoreLaws memory
unfolding memory_runs
memory_image_store = record {
  images = images;
  leases = LeaseFrame-images;
  reads = ReadFrame-images;
  unpacks = UnpackFrame-images;
  images-commit = λ sn ctx name k os s. ground arith;
  get_gives = λ ctx k s i e. ground arith;
  update_stores = update_image-Stores;
  update_fails = λ ctx i s x e. ground arith;
  create_stores = create_image-Stores;
}
