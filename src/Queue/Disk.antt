-- ===== src/Queue/Disk.antt =====
-- The storage behind a queue, as src/istos/queue/store.py uses it: one key for each job, one key
-- for the index, and writes and reads that may raise. Which of them raise is the list `faults`,
-- one flag for each access to come, and no further faults once it is used up.
use istos.Prelude.{ℕ, Bool, true, false, Option, List, [], ◌∷◌, number_key}
use istos.Dict.{Dict}
use istos.Queue.Job.{JobRecord}

pub record Disk : Type 0 where
  pub cells : Dict ℕ JobRecord
  pub index : Option (List ℕ)
  pub faults : List Bool

access : List Bool → (Disk → Disk) → Disk → Disk
access [] f d = f d
access (true ∷ rest) f d = record d { faults = rest }
access (false ∷ rest) f d = f (record d { faults = rest })

-- `try: await storage.…; except Exception: log`
pub attempt : (Disk → Disk) → Disk → Disk
unfolding access
attempt f d = access d.faults f d

pull : List Bool → Disk → Bool × Disk
pull [] d = (false, d)
pull (f ∷ rest) d = (f, record d { faults = rest })

-- Whether the next read raises, and the storage after it.
unfoldable pub next_fault : Disk → Bool × Disk
unfolding pull
next_fault d = pull d.faults d
