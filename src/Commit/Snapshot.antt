-- ===== src/Commit/Snapshot.antt =====
-- The snapshot that Commit leaves.
use containerdosstore.Prelude.{
  ℕ, String, Option, none, some, List, [], ◌∷◌, ◌++◌, ◌≡◌, ◌∙◌, ◌⊎◌, inl, inr, refl, sym, ap, subst,
}
use containerdosstore.Exec.{Attempt, failed, returned, ok, apply_opts}
use containerdosstore.Exec.Inversion.{bind-returns, ok_injective}
use containerdosstore.Exec.Keeps.{Keeps, Keeps-bind, Keeps-attempt}
use containerdosstore.Services.{Services, Leased}
use containerdosstore.Services.Types.{Digest, Descriptor, Image, Info, ImageConfig, Manifest}
use containerdosstore.Services.Frame.{Shows, Keeps-call, Keeps-shown, frame_rules}
use containerdosstore.World.{World, call}
use containerdosstore.OciStore.{OciStore, finish, label_snapshot_img_ref}
use containerdosstore.OciStore.Steady.{finish-Shows}
use containerdosstore.Snapshots.Table.{Table, SnapshotLaws, find}
use containerdosstore.Read.{read_image_config, read_manifest}
use containerdosstore.Commit.{
  CommitImgOpts, CommitImgOpt, no_commit_img_opts, manifest_of, base_image, apply_diff_layer,
  write_contents_for_image, create_missing, store_image, commit, label_of,
}
use containerdosstore.Commit.Config.{generate_commit_image_config}
use containerdosstore.Commit.Steps.{new_config}
use containerdosstore.Commit.Returned.{commit-Returned, Returned, Made, taking}
use containerdosstore.Commit.Exported.{
  Exported, Describes, layers_of, create_diff-Exported, write_contents_for_image-Describes,
}
use containerdosstore.Commit.Views.{Frame-ReadFrame, write_contents_for_image-Shows, taking-Shows}
use containerdosstore.Commit.Moving.{CommitLaws, apply_diff_layer-found, unpack_func-Has}

module _ {S : Services} (c : OciStore S) (L : SnapshotLaws S (S.snapshot_service c.driver))
    (M : CommitLaws L) where
  abbrev table : World S → Table
  table w = L.table w.services

  -- The layers of the image that the image store gives under a name in the world w: their diff ids, as
  -- its configuration is read, and their descriptors, as its manifest is.
  pub record LayersOf (ctx : Option S.Ctx) (ref : String) (w : World S) (base : List Digest)
      (front : List Descriptor) : Type 0 where
    pub image : Image
    pub got : (S.get_image ctx ref w.services).0 ≡ ok image
    pub found : World S
    pub found-is : found ≡ (call (S.get_image ctx ref) w).1
    pub config : ImageConfig × Descriptor
    pub read : (read_image_config ctx image found).0 ≡ ok config
    pub diff_ids : base ≡ config.0.diff_ids
    pub manifest : Option (Manifest × Descriptor)
    pub read_mfst : (read_manifest ctx image (read_image_config ctx image found).1).0 ≡ ok manifest
    pub layers : front ≡ layers_of (manifest_of manifest)

  -- What Commit of the key made. The snapshot of the key was there. The layers of the new image are
  -- those of the image that its label names, or none without such a label, and the one that the differ
  -- made of it; a snapshot stands under the chain id of their diff ids, which the configuration of the
  -- new image lists, and the manifest of its target their descriptors.
  pub record Committed (key : String) (opts : List S.DiffOpt) (w : World S) (img : Image)
      (after : Table) : Type 0 where
    pub lease : Leased S.Ctx S.Done
    pub lease-is : (taking c w).0 ≡ ok lease
    pub active : Info
    pub was : find key (table w) ≡ some active
    pub statted : World S
    pub statted-is :
        statted ≡ (call (S.stat (S.snapshot_service c.driver) lease.ctx key) (taking c w).1).1
    pub base : List Digest
    pub front : List Descriptor
    pub from_image :
        ((label_of active.labels label_snapshot_img_ref ≡ none) × (base ≡ []) × (front ≡ []))
        ⊎ ((ref : String) × (label_of active.labels label_snapshot_img_ref ≡ some ref)
            × LayersOf lease.ctx ref statted base front)
    pub based : World S
    pub based-is :
        based
        ≡ (base_image {S = S} lease.ctx (label_of active.labels label_snapshot_img_ref) statted).1
    pub layer : Descriptor
    pub diff_id : Digest
    pub exported :
        Exported S lease.ctx key (S.snapshot_service c.driver) opts based.services layer diff_id
    pub config : ImageConfig
    pub diff_ids : config.diff_ids ≡ base ++ (diff_id ∷ [])
    pub describes : Describes S img.target config front layer
    pub committed : Info
    pub found : find (S.chain_id config.diff_ids) after ≡ some committed

  base_image-from :
      (ctx : Option S.Ctx) (o : Option String) (w : World S) (base : ImageConfig × Option Manifest)
      → (base_image {S = S} ctx o w).0 ≡ ok base
      → ((o ≡ none) × (base.0.diff_ids ≡ []) × (layers_of base.1 ≡ []))
        ⊎ ((ref : String) × (o ≡ some ref) × LayersOf ctx ref w base.0.diff_ids (layers_of base.1))
  unfolding base_image call
  base_image-from ctx none w base e = inl (
    refl,
    ap (λ (b : ImageConfig × Option Manifest). b.0.diff_ids) (sym (ok_injective _ base e)),
    ap (λ (b : ImageConfig × Option Manifest). layers_of b.1) (sym (ok_injective _ base e)),
  )
  base_image-from ctx (some ref) w base e =
      let get = call (S.get_image ctx ref) in
      let (img, got, left, _) = bind-returns get _ w base e in
      let w1 = (get w).1 in
      let (config, read, left', _) = bind-returns (read_image_config ctx img) _ w1 base left in
      let w2 = (read_image_config ctx img w1).1 in
      let (mfst, read_mfst, last, _) = bind-returns (read_manifest ctx img) _ w2 base left' in
      inr (
        ref,
        refl,
        record {
          image = img;
          got = got;
          found = w1;
          found-is = refl;
          config = config;
          read = read;
          diff_ids =
              ap (λ (b : ImageConfig × Option Manifest). b.0.diff_ids)
                (sym (ok_injective _ base last));
          manifest = mfst;
          read_mfst = read_mfst;
          layers =
              ap (λ (b : ImageConfig × Option Manifest). layers_of b.1)
                (sym (ok_injective _ base last));
        },
      )

  create_missing-Shows :
      (ctx : Option S.Ctx) (img : Image) (b : Table) (a : Attempt Image)
      → Keeps (Shows {S = S} L.table b) (create_missing {S = S} ctx img a)
  unfolding create_missing
  create_missing-Shows ctx img b (returned x) = search frame_rules
  create_missing-Shows ctx img b (failed e) =
      search (frame_rules, M.tables.frame.create_image) depth 9

  store_image-Shows :
      (ctx : Option S.Ctx) (img : Image) (b : Table)
      → Keeps (Shows {S = S} L.table b) (store_image {S = S} ctx img)
  unfolding store_image
  store_image-Shows ctx img b =
      Keeps-bind _ _ (λ a. create_missing-Shows ctx img b a)
        (Keeps-attempt _ (Keeps-call _ (M.tables.frame.update_image ctx img [])))

  module _ (ctx : Option S.Ctx) (key : String) (opt : CommitImgOpts S) (img : Image)
      (w left : World S) (m : Made c ctx opt key img w left) where
    abbrev config : ImageConfig
    config = new_config c m.applied.time m.base.0 m.layer.1 opt

    -- What commit_leased made, with the lease that it ran under.
    made-found : (i : Info) × (find (S.chain_id config.diff_ids) (table left) ≡ some i)
    unfolding call generate_commit_image_config
    made-found =
        let a = m.applied in
        let t = a.stored in
        let R = Frame-ReadFrame M.tables.frame in
        let name = S.chain_id config.diff_ids in
        let (i, there) = apply_diff_layer-found c L M ctx name key m.layer.0 a.timed a.apply-is in
        let writing = write_contents_for_image ctx c.driver m.base.1 config m.layer.0 in
        let put = store_image ctx img in
        let stored : table (put t.stamped).1
            ≡ table
                (apply_diff_layer ctx name key (S.snapshot_service c.driver) m.layer.0 a.timed).1 =
          Keeps-shown L.table put (store_image-Shows ctx img) t.stamped
          ∙ ap table t.stamped-is
          ∙ M.tables.frame.now a.written.services
          ∙ ap table a.written-is
          ∙ Keeps-shown L.table writing
              (λ b. write_contents_for_image-Shows R b ctx c.driver m.base.1 config m.layer.0)
              a.applied
          ∙ ap table a.applied-is in
        let kept =
          (unpack_func-Has c L M name i ctx img []).at (put t.stamped).1
            (record { found = ap (find name) stored ∙ there }) in
        (i, ap (λ s. find name (L.table s)) t.stored-is ∙ kept.found)

  new_config-diff_ids :
      (time : ℕ) (base : ImageConfig) (diff_id : Digest) (opt : CommitImgOpts S)
      → (new_config c time base diff_id opt).diff_ids ≡ base.diff_ids ++ (diff_id ∷ [])
  unfolding generate_commit_image_config
  new_config-diff_ids time base diff_id opt = refl

  module _ (key : String) (opts : List (CommitImgOpt S)) (w : World S) (img : Image)
      (r : Returned c key opts w img) where
    returned-was : find key (table w) ≡ some r.made.info
    unfolding call
    returned-was =
        let leased : table r.leased ≡ table w =
          ap table r.leased-is
          ∙ Keeps-shown L.table (taking c) (λ b. taking-Shows M.tables.leases b c) w in
        ap (find key) (sym leased)
        ∙ L.stat_found r.lease.ctx key r.leased.services r.made.info r.made.stat-is

    -- The image has the target that was written.
    returned-Describes :
        Describes S img.target
          (config r.lease.ctx key r.opt img r.leased r.ended r.made)
          (layers_of r.made.base.1)
          r.made.layer.0
    returned-Describes =
        let a = r.made.applied in
        subst
          (λ d.
            Describes S d (config r.lease.ctx key r.opt img r.leased r.ended r.made)
              (layers_of r.made.base.1) r.made.layer.0)
          (ap (λ (i : Image). i.target) (sym a.stored.image-is))
          (write_contents_for_image-Describes r.lease.ctx c.driver r.made.base.1 _ r.made.layer.0
            a.applied a.target a.write-is)

    returned-Exported :
        Exported S r.lease.ctx key
          (S.snapshot_service c.driver)
          r.opt.d_opts
          r.made.based.services
          r.made.layer.0
          r.made.layer.1
    returned-Exported =
        create_diff-Exported r.lease.ctx key (S.snapshot_service c.driver) r.opt.d_opts r.made.based
          r.made.layer r.made.layer-is

  -- Commit that returns an image found the snapshot of the key. The layers of the new image are those
  -- of the image that the label of the snapshot names, as its configuration and its manifest are read
  -- in the world after Stat, or none where there is no such label, and the one that the differ made
  -- of the snapshot, whose diff id is the digest that the content store has as its label of the
  -- uncompressed content. The target of the new image is the descriptor of a manifest of those
  -- layers, whose configuration lists their diff ids, and a snapshot is left under the chain id of
  -- these.
  pub commit-Committed :
      (key : String) (opts : List (CommitImgOpt S)) (opt : CommitImgOpts S) (w : World S)
      (img : Image)
      → apply_opts opts no_commit_img_opts ≡ ok opt
      → (commit c key opts w).0 ≡ ok img
      → Committed key opt.d_opts w img (table (commit c key opts w).1)
  commit-Committed key opts opt w img given e =
      let r = commit-Returned c key opts w img e in
      let m = r.made in
      let warning : String = "could not remove lease on update image operation" in
      let after : table (commit c key opts w).1 ≡ table r.ended =
        ap table r.left
        ∙ Keeps-shown L.table (finish r.lease warning none)
            (λ b. finish-Shows M.tables.leases b r.lease warning none) r.ended in
      let (i, there) = made-found r.lease.ctx key r.opt img r.leased r.ended m in
      let same : r.opt ≡ opt = ok_injective r.opt opt (sym r.options ∙ given) in
      let label = label_of m.info.labels label_snapshot_img_ref in
      record {
        lease = r.lease;
        lease-is = r.lease-is;
        active = m.info;
        was = returned-was key opts w img r;
        statted = m.statted;
        statted-is =
            m.statted-is
            ∙ ap (λ v. (call (S.stat (S.snapshot_service c.driver) r.lease.ctx key) v).1)
                r.leased-is;
        base = m.base.0.diff_ids;
        front = layers_of m.base.1;
        from_image = base_image-from r.lease.ctx label m.statted m.base m.base-is;
        based = m.based;
        based-is = m.based-is;
        layer = m.layer.0;
        diff_id = m.layer.1;
        exported =
            subst
              (λ (o : CommitImgOpts S).
                Exported S r.lease.ctx key (S.snapshot_service c.driver) o.d_opts m.based.services
                  m.layer.0 m.layer.1)
              same (returned-Exported key opts w img r);
        config = config r.lease.ctx key r.opt img r.leased r.ended m;
        diff_ids = new_config-diff_ids m.applied.time m.base.0 m.layer.1 r.opt;
        describes = returned-Describes key opts w img r;
        committed = i;
        found = ap (find _) after ∙ there;
      }
