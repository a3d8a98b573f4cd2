-- ===== src/Commit/References.antt =====
-- The labels that writeContentsForImage gives the manifest: what they refer to is not collected.
use containerdosstore.Prelude.{
  ℕ, zero, suc, ◌+◌, ◌≤◌, String, ◌<>◌, some, List, [], ◌∷◌, ◌≡◌, ◌≢◌, ◌∙◌, refl, sym, ap, arith,
  eq_iff, get_elem?, Map, lookup, insert, lookup-insert, decimal, decimal_injective,
  append_cancel_left,
}
use containerdosstore.Services.Types.{Digest, Descriptor}
use containerdosstore.Commit.{layer_labels}

abbrev pub content_label : ℕ → String
content_label n = "containerd.io/gc.ref.content." <> decimal n

content_label_injective : (m n : ℕ) → content_label m ≡ content_label n → m ≡ n
content_label_injective m n e =
    decimal_injective m n
      (append_cancel_left "containerd.io/gc.ref.content." (decimal m) (decimal n) e)

lookup-insert_label :
    (m n : ℕ) (d : Digest) (labels : Map String)
    → m ≢ n
    → lookup (content_label n) (insert (content_label m) d labels) ≡ lookup (content_label n) labels
lookup-insert_label m n d labels h = ground (
  arith,
  lookup-insert (content_label m) (content_label n) d labels,
  eq_iff (content_label m) (content_label n),
  content_label_injective m n,
  h,
)

lookup-insert_same :
    (n : ℕ) (d : Digest) (labels : Map String)
    → lookup (content_label n) (insert (content_label n) d labels) ≡ some d
lookup-insert_same n d labels = ground (
  arith,
  lookup-insert (content_label n) (content_label n) d labels,
  eq_iff (content_label n) (content_label n),
)

-- The labels below the first number stay.
lookup-layer_labels_below :
    (i j : ℕ) (ls : List Descriptor) (labels : Map String)
    → j ≤ i
    → lookup (content_label j) (layer_labels i ls labels) ≡ lookup (content_label j) labels
unfolding layer_labels
lookup-layer_labels_below i j [] labels h = refl
lookup-layer_labels_below i j (l ∷ ls) labels h =
    lookup-layer_labels_below (i + 1) j ls (insert (content_label (i + 1)) l.digest labels)
      (omega arith)
    ∙ lookup-insert_label (i + 1) j l.digest labels (λ e. omega arith)

lookup-layer_labels :
    (i n : ℕ) (ls : List Descriptor) (labels : Map String) (l : Descriptor)
    → get_elem? ls n ≡ some l
    → lookup (content_label (i + n + 1)) (layer_labels i ls labels) ≡ some l.digest
unfolding layer_labels
lookup-layer_labels i n [] labels l e = cc
lookup-layer_labels i zero (x ∷ ls) labels l e =
    let same : x ≡ l = cc in
    let first : i + 0 + 1 ≡ i + 1 = omega arith in
    let with_x = insert (content_label (i + 1)) x.digest labels in
    ap (λ j. lookup (content_label j) (layer_labels (i + 1) ls with_x)) first
    ∙ lookup-layer_labels_below (i + 1) (i + 1) ls with_x (omega arith)
    ∙ lookup-insert_same (i + 1) x.digest labels
    ∙ ap (λ (y : Descriptor). some y.digest) same
lookup-layer_labels i (suc n) (x ∷ ls) labels l e =
    let with_x = insert (content_label (i + 1)) x.digest labels in
    let next : i + suc n + 1 ≡ i + 1 + n + 1 = omega arith in
    ap (λ j. lookup (content_label j) (layer_labels (i + 1) ls with_x)) next
    ∙ lookup-layer_labels (i + 1) n ls with_x l e

-- The labels that Commit writes with a manifest refer to its configuration and to every layer: the
-- label with number 0 holds the digest of the configuration, and that with number n + 1 the digest
-- of the layer at position n, however many layers there are.
pub labels-refer :
    (config : Digest) (layers : List Descriptor) (n : ℕ) (layer : Descriptor)
    → get_elem? layers n ≡ some layer
    → let labels = layer_labels 0 layers (("containerd.io/gc.ref.content.0", config) ∷ []) in
      (lookup "containerd.io/gc.ref.content.0" labels ≡ some config)
      × (lookup (content_label (n + 1)) labels ≡ some layer.digest)
unfolding decimal lookup
labels-refer config layers n layer e =
    let start : Map String = ("containerd.io/gc.ref.content.0", config) ∷ [] in
    let number : 0 + n + 1 ≡ n + 1 = omega arith in
    (
      lookup-layer_labels_below 0 0 layers start (omega arith),
      sym (ap (λ j. lookup (content_label j) (layer_labels 0 layers start)) number)
          ∙ lookup-layer_labels 0 n layers start layer e,
    )
