-- ===== src/OciStore/Diff.antt =====
-- pkg/ocistore/diff.go: the diff service that Init hands to the client, over a comparer and an applier
-- of containerd.
use containerdosstore.Prelude.{List}
use containerdosstore.Exec.{Exec}
use containerdosstore.Services.Types.{Descriptor}

-- containerd's packages core/diff, core/diff/apply and plugins/diff/walking
pub record DiffLibrary : Type 1 where
  pub State : Type 0
  pub Ctx : Type 0
  pub Mount : Type 0
  pub DiffOpt : Type 0
  pub ApplyOpt : Type 0
  pub ContentStore : Type 0
  pub Comparer : Type 0
  pub Applier : Type 0
  pub new_walking_diff : ContentStore → Comparer
  pub new_file_system_applier : ContentStore → Applier
  pub compare : Comparer → Ctx → List Mount → List Mount → List DiffOpt → Exec State Descriptor
  pub apply : Applier → Ctx → Descriptor → List Mount → List ApplyOpt → Exec State Descriptor

record DiffService (D : DiffLibrary) : Type 0 where
  walk_diff : D.Comparer
  apply_diff : D.Applier

module _ {D : DiffLibrary} where
  abbrev compare :
      DiffService D → D.Ctx → List D.Mount → List D.Mount → List D.DiffOpt → Exec D.State Descriptor
  compare d ctx lower upper opts = D.compare d.walk_diff ctx lower upper opts

  abbrev apply :
      DiffService D → D.Ctx → Descriptor → List D.Mount → List D.ApplyOpt → Exec D.State Descriptor
  apply d ctx desc mount opts = D.apply d.apply_diff ctx desc mount opts

  abbrev new_diff_service : D.ContentStore → DiffService D
  new_diff_service store = record {
    walk_diff = D.new_walking_diff store;
    apply_diff = D.new_file_system_applier store;
  }
