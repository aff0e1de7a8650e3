-- ===== src/Server/Updating.antt =====
-- updateBead: what an updated bead is, and what the store holds afterwards.
use kbeads.Prelude.{ℕ, String, some, ◌==◌, if◌then◌else◌, ◌≡◌}
use kbeads.Prelude.Dict
use kbeads.Model.Bead.{Bead}
use kbeads.Model.Validate.{IsValid}
use kbeads.Server.Store.{ok, Tables, has_label, updated_row}
use kbeads.Server.Beads.{Env}
use kbeads.Server.Update.{UpdateBeadInput, patched, patched_fields}
use kbeads.Server.UpdateSteps.{IsRead, label_after}

-- What an update stores: the row of its bead, and the labels where they were given; other beads keep
-- their rows and labels.
abbrev pub IsStored : Env → UpdateBeadInput → Tables → Bead → Tables → Type 0
IsStored env in_ t b t' =
    ((old : Bead) × (Dict.get b.id t.beads ≡ some old)
      × ((i : String)
          → Dict.get i t'.beads
            ≡ (if b.id == i then some (updated_row env.store_now b old) else Dict.get i t.beads)))
    × ((i x : String) → has_label i x t'.labels ≡ label_after in_.labels b.id t i x)

-- The bead that an update gives back: the patched old row, valid, and stored.
pub record IsUpdated (env : Env) (id : String) (in_ : UpdateBeadInput) (t : Tables) (b : Bead)
    (t' : Tables) : Type 0 where
  pub old : Bead
  pub was_read : IsRead id t old t
  pub fields : String
  pub merged : patched_fields env in_.fields old.fields ≡ ok fields
  pub stamp : ℕ
  pub is_patched : record (patched env in_ old fields) { updated_at = stamp } ≡ b
  pub valid : IsValid env.json_valid b
  pub stored : IsStored env in_ t b t'

abbrev Applied : Env → UpdateBeadInput → Bead → String → Tables → Bead → Tables → Type 0
Applied env in_ old fields t r t' =
    ((stamp : ℕ) × ((record (patched env in_ old fields) { updated_at = stamp }) ≡ r))
    × IsValid env.json_valid r
    × IsStored env in_ t r t'
