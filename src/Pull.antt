-- ===== src/Pull.antt =====
-- pkg/ocistore/pull.go: pulling a remote image.
pub mod Leases
pub mod Filter
use containerdosstore.Prelude.{
  String, Bool, true, false, Option, none, some, List, [], ◌∷◌, ◌++◌, if◌then◌else◌,
}
use containerdosstore.Exec.{
  Error, Outcome, ok, Exec, failed, returned, attempt, pure, lift, on_error, apply_opts, ◌>>=◌,
  ◌>>◌,
}
use containerdosstore.Services.{Services}
use containerdosstore.Services.Types.{Image}
use containerdosstore.World.{World, call, infof, warnf}
use containerdosstore.OciStore.{OciStore, guarded, leased_ret, report, report_on}
use containerdosstore.Unpack.{ApplyCommitOpt, unpack_func}

pub record PullOpts (S : Services) : Type 0 where
  pub a_opts : List (ApplyCommitOpt S)
  pub r_opts : List S.RemoteOpt
  pub unpack : Bool

abbrev pub PullOpt : Services → Type 0
PullOpt S = PullOpts S → Outcome (PullOpts S)

-- `rOpts[:i]`, the option at i and `rOpts[i+1:]`, at the first option that the test takes.
module _ {ℓ} {A : Type ℓ} (test : A → Bool) where
  unfoldable pub found : List A → Bool
  found [] = false
  found (o ∷ os) = if test o then true else found os

  unfoldable pub drop_first : List A → List A
  drop_first [] = []
  drop_first (o ∷ os) = let rest = drop_first os in if test o then os else o ∷ rest

module _ {S : Services} where
  abbrev pub no_pull_opts : PullOpts S
  no_pull_opts = record { a_opts = []; r_opts = []; unpack = false }

  unfoldable pub with_pull_client_opts : List S.RemoteOpt → PullOpt S
  with_pull_client_opts opts p = ok (record p { r_opts = p.r_opts ++ opts })

  unfoldable pub with_pull_unpack : PullOpt S
  with_pull_unpack p = ok (record p { unpack = true })

  unfoldable pub with_pull_apply_commit_opts : List (ApplyCommitOpt S) → PullOpt S
  with_pull_apply_commit_opts opts p = ok (record p { a_opts = p.a_opts ++ opts })

  -- The hack that drops the client's own WithPullUnpack: the first one only.
  unfoldable pub filter_pull_unpack : List S.RemoteOpt → Exec (World S) (List S.RemoteOpt)
  filter_pull_unpack opts =
      if found S.is_pull_unpack opts
      then (do
        warnf "Requested 'WithPullUnpack' option, ignoring it" []
        pure (drop_first S.is_pull_unpack opts))
      else pure opts

  -- The image is returned beside the error of unpacking it.
  pub pull_unpack :
      OciStore S → Option S.Ctx → Image → PullOpts S → Bool → Exec (World S) (Image × Option Error)
  pull_unpack c ctx img opt false = pure (img, none)
  pull_unpack c ctx img opt true = do
    unpacked ← attempt (unpack_func c ctx img opt.a_opts)
    elim unpacked [
      | failed e ↦ do report_on "failed to unpack image '%s': %v" img.name e; pure (img, some e)
      | returned _ ↦ do infof "Successfully unpacked image '%s'" (img.name ∷ []); pure (img, none)
    ]

  pull_leased :
      OciStore S → String → PullOpts S → List S.RemoteOpt → Exec (World S) (Image × Option Error)
  unfolding pull_unpack
  pull_leased c ref opt r_opts =
      leased_ret (λ r. r.1) c [] (report "failed to create lease to pull image: %v")
        "could not remove lease on pull operation"
        λ ctx. do
          img ←
              on_error (call (S.pull_image ctx ref r_opts))
                (report_on "failed to pull image '%s': %v" ref)
          infof "Successfully pulled image '%s'" (img.name ∷ [])
          pull_unpack c ctx img opt opt.unpack

  unfoldable pub pull :
      OciStore S → String → List (PullOpt S) → Exec (World S) (Image × Option Error)
  unfolding filter_pull_unpack pull_leased
  pull c ref opts = guarded c do
    opt ← lift (apply_opts opts no_pull_opts)
    r_opts ← filter_pull_unpack opt.r_opts
    pull_leased c ref opt r_opts
