-- ===== src/Base/Locks.antt =====
-- The state of a read-write lock of the thread library, and what may be done in it.
use mathlib.Core.Bool.{Bool, true, false}
use so.Base.Nodes.{Run, fault}

pub data RwLock : Type 0 where
  unlocked rdlocked wrlocked : RwLock

abbrev pub can_read : RwLock → Bool
can_read unlocked = true
can_read rdlocked = true
can_read wrlocked = false

abbrev pub can_write : RwLock → Bool
can_write unlocked = true
can_write rdlocked = false
can_write wrlocked = false

abbrev pub read_held : RwLock → Bool
read_held unlocked = false
read_held rdlocked = true
read_held wrlocked = true

abbrev pub write_held : RwLock → Bool
write_held unlocked = false
write_held rdlocked = false
write_held wrlocked = true

-- An access to what threads share. Without the lock for it, it is a data race, which is undefined
-- behaviour.
abbrev pub guarded : {A : Type 0} → Bool → Run A → Run A
guarded true run = run
guarded false run = fault
