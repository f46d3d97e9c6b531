-- ===== src/Core.antt =====
-- coordinator/core: the state of the coordinator and the operations on it.
pub mod Getters
pub mod Putters
pub mod Transactions
pub mod Certs
pub mod Secrets
pub mod States
pub mod Start
pub mod DryRun
pub mod Changes
pub mod SecretMap
pub mod Users
pub mod Client
pub mod Activation
pub mod Reached
pub mod Concrete
mod Tests
use marblerun.Recovery.{Recovery}
use marblerun.Services.{Services}
use marblerun.Store.{Disk, Sealer}
use marblerun.Base.{Slice, Str, Bytes, Map}
use marblerun.Base.Exec.{Exec}

-- Core: the store beside the sealer, the recovery, the quote, and the text that the update logger
-- holds. The mutex is held during a whole operation, so operations follow one another.
pub record Core (sl : Sealer) (rc : Recovery) (ext : Services) : Type 0 where
  pub disk : Disk sl
  pub recovery : rc.State
  pub quote : Slice
  pub update_log : Str
  pub entropy : ext.Entropy

module _ {sl : Sealer} {rc : Recovery} {ext : Services} where
  -- what `c.data` reads
  abbrev pub stored : Core sl rc ext → Map Bytes
  stored c = c.disk.store.data_map

  abbrev pub on_entropy : {A : Type 0} → Exec ext.Entropy A → Exec (Core sl rc ext) A
  on_entropy f c = let (r, x) = f c.entropy in (r, record c { entropy = x })

  abbrev pub on_recovery : {A : Type 0} → Exec rc.State A → Exec (Core sl rc ext) A
  on_recovery f c = let (r, x) = f c.recovery in (r, record c { recovery = x })

  abbrev pub on_sealer : {A : Type 0} → Exec sl.State A → Exec (Core sl rc ext) A
  on_sealer f c =
      let (r, x) = f c.disk.sealer in (r, record c { disk = record c.disk { sealer = x } })

  abbrev pub on_disk : {A : Type 0} → Exec (Disk sl) A → Exec (Core sl rc ext) A
  on_disk f c = let (r, x) = f c.disk in (r, record c { disk = x })
