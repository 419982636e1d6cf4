-- ===== src/Sandbox/State.antt =====
-- app/sandbox/persistence.py: `SandboxState`, the file that keeps the systems' data. A list that is absent
-- or null in a snapshot is empty.
use agent_identity_platform.Common.{String, Bool, Option, [], Dict, ℕ, ◌&&◌, if◌then◌else◌}
use agent_identity_platform.Simulators.Data.{Called, raised, returned}
use agent_identity_platform.Simulators.Payments.{Money, Order}
use agent_identity_platform.Simulators.Systems.{Systems, Snapshot, restore, empty_systems}

-- `SANDBOX_STATE_PATH` is set, and the write that follows succeeds.
pub record Storage : Type 0 where
  pub enabled : Bool
  pub writes : Bool

-- The file: there is none, it is not JSON or cannot be opened, it is JSON but no object, or a snapshot.
pub data File (A : Type 0) : Type 0 where
  absent unreadable foreign : File A
  kept : Snapshot A → File A

-- The running systems and the file.
pub record Sandbox (A : Type 0) : Type 0 where
  pub systems : Systems A
  pub file : File A

-- The rename is the last step, so a write that fails leaves the old file.
unfoldable pub save : {A : Type 0} → Storage → Snapshot A → File A → File A
save storage k file = if storage.enabled && storage.writes then kept k else file

-- `data.get` of a value that is no dictionary is outside the `try`.
unfoldable pub read : {A : Type 0} → File A → Called (Snapshot A)
read absent = returned (record { refunds = []; drafts = [] })
read unreadable = returned (record { refunds = []; drafts = [] })
read foreign = raised "AttributeError"
read (kept k) = returned k

unfoldable pub load : {A : Type 0} → Storage → File A → Called (Snapshot A)
unfolding read
load storage file =
    if storage.enabled then read file else returned (record { refunds = []; drafts = [] })

-- A new process with what `load` gave.
unfoldable pub started :
    {A : Type 0}
    → Money A
    → Dict (Order A)
    → (String → Option ℕ)
    → File A
    → Called (Snapshot A)
    → Called (Sandbox A)
started money orders draft_number file (raised text) = raised text
started money orders draft_number file (returned k) =
    returned (record { systems = restore money orders draft_number k empty_systems; file = file })

-- `_lifespan`: a new process that starts on the file, or fails to.
unfoldable pub start :
    {A : Type 0}
    → Money A
    → Dict (Order A)
    → (String → Option ℕ)
    → Storage
    → Sandbox A
    → Called (Sandbox A)
unfolding load started
start money orders draft_number storage s =
    started money orders draft_number s.file (load storage s.file)
