-- ===== src/Audit/Run.antt =====
-- crates/sv-audit/src/lib.rs: the steps on the vault directory. A run is under the write lock, which
-- is not modelled; where it fails, the directory is as its steps before the failure left it.
use sovereign_vault.Common.{ℕ, List, ◌++◌}
use sovereign_vault.Common.Assoc.{put_key}
use sovereign_vault.Common.Fallible.{Fallible, success, failure}
use sovereign_vault.Audit.{
  AuditError, io, integrity, Node, missing, irregular, regular, Disk, file_missing, not_regular,
}

abbrev pub Run {ℓ} : Type ℓ → Type ℓ
Run A = Disk → Disk × Fallible AuditError A

abbrev pub continue {ℓ κ} :
    {A : Type ℓ} {B : Type κ}
    → Disk × Fallible AuditError A
    → (A → Run B)
    → Disk × Fallible AuditError B
continue (disk, failure e) next = (disk, failure e)
continue (disk, success a) next = next a disk

infixl 5 ◌>>=◌
abbrev pub ◌>>=◌ {ℓ κ} : {A : Type ℓ} {B : Type κ} → Run A → (A → Run B) → Run B
(run >>= next) disk = continue (run disk) next

infixl 5 ◌>>◌
abbrev pub ◌>>◌ {ℓ} : Run (Unit {0}) → {B : Type ℓ} → Run B → Run B
(run >> next) disk = continue (run disk) (λ done. next)

abbrev pub pure {ℓ} : {A : Type ℓ} → A → Run A
pure a disk = (disk, success a)

-- A computation that reads the directory, or none of it.
abbrev pub reading {ℓ} : {A : Type ℓ} → (Disk → Fallible AuditError A) → Run A
reading read disk = (disk, read disk)

abbrev pub lift {ℓ} : {A : Type ℓ} → Fallible AuditError A → Run A
lift result disk = (disk, result)

-- `atomic_replace` of the checkpoint and of the active log: the destination is replaced whole.
abbrev pub replace_checkpoint_node :
    Disk → Node → (bytes : List ℕ) → Disk × Fallible AuditError (Unit {0})
replace_checkpoint_node disk irregular bytes = (disk, failure (integrity not_regular))
replace_checkpoint_node disk _ bytes = (record disk { checkpoint = regular bytes }, success tt)

unfoldable pub replace_checkpoint : (bytes : List ℕ) → Run (Unit {0})
replace_checkpoint bytes disk = replace_checkpoint_node disk disk.checkpoint bytes

abbrev pub replace_active_node :
    Disk → Node → (bytes : List ℕ) → Disk × Fallible AuditError (Unit {0})
replace_active_node disk irregular bytes = (disk, failure (integrity not_regular))
replace_active_node disk _ bytes = (record disk { active = regular bytes }, success tt)

unfoldable pub replace_active : (bytes : List ℕ) → Run (Unit {0})
replace_active bytes disk = replace_active_node disk disk.active bytes

-- `OpenOptions::append` with `write_all` and `sync_all`.
abbrev pub append_node : Disk → Node → (bytes : List ℕ) → Disk × Fallible AuditError (Unit {0})
append_node disk missing bytes = (disk, failure (io file_missing))
append_node disk irregular bytes = (disk, failure (io not_regular))
append_node disk (regular raw) bytes = (record disk { active = regular (raw ++ bytes) }, success tt)

unfoldable pub append_active : (bytes : List ℕ) → Run (Unit {0})
append_active bytes disk = append_node disk disk.active bytes

-- `fs::rename` of the active log to another name.
unfoldable pub rename_active : (name : List ℕ) → Run (Unit {0})
rename_active name disk =
    (record disk { active = missing; others = put_key disk.others name disk.active }, success tt)
