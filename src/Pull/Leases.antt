-- ===== src/Pull/Leases.antt =====
-- The lease of Pull.
use containerdosstore.Prelude.{String, Bool, true, false, Option, List}
use containerdosstore.Services.Types.{Image}
use containerdosstore.Services.{Services}
use containerdosstore.Services.Frame.{frame_rules}
use containerdosstore.Services.Leases.{LeaseLaws}
use containerdosstore.OciStore.{OciStore}
use containerdosstore.OciStore.Leasing.{KeepsLeases, leased_ret-KeepsLeases, guarded-KeepsLeases}
use containerdosstore.Unpack.Leases.{unpack_func-KeepsLeases}
use containerdosstore.Pull.{PullOpts, PullOpt, pull_unpack, filter_pull_unpack, pull_leased, pull}

module _ {S : Services} (L : LeaseLaws S) where
  pub pull_unpack-KeepsLeases :
      (c : OciStore S) (ctx : Option S.Ctx) (img : Image) (opt : PullOpts S) (b : Bool)
      → KeepsLeases L (pull_unpack c ctx img opt b)
  unfolding pull_unpack
  pull_unpack-KeepsLeases c ctx img opt false l = search frame_rules
  pull_unpack-KeepsLeases c ctx img opt true l =
      search (frame_rules, unpack_func-KeepsLeases L) depth 9

  filter_pull_unpack-KeepsLeases :
      (os : List S.RemoteOpt) → KeepsLeases L (filter_pull_unpack {S = S} os)
  unfolding filter_pull_unpack
  filter_pull_unpack-KeepsLeases os l = search frame_rules

  pull_leased-KeepsLeases :
      (c : OciStore S) (ref : String) (opt : PullOpts S) (os : List S.RemoteOpt)
      → KeepsLeases L (pull_leased c ref opt os)
  unfolding pull_leased
  pull_leased-KeepsLeases c ref opt os =
      leased_ret-KeepsLeases L _ c _ _ _ _ (λ e l. search frame_rules)
        (λ ctx l. search (frame_rules, L.frame.pull_image, pull_unpack-KeepsLeases) depth 9)

  pub pull-KeepsLeases :
      (c : OciStore S) (ref : String) (os : List (PullOpt S)) → KeepsLeases L (pull c ref os)
  unfolding pull
  pull-KeepsLeases c ref os =
      guarded-KeepsLeases L c _
        (λ l. search (frame_rules, filter_pull_unpack-KeepsLeases, pull_leased-KeepsLeases) depth 9)
