-- ===== src/Exports/Single.antt =====
-- An owner has one active export at most (exports/services/jobs.py and worker.py).
use svrx_pinry.Prelude.{ℕ, Bool, ◌&&◌, some, opt_eq}
use svrx_pinry.Exports.Contracts.{is_active}
use svrx_pinry.Exports.Tables.{Job}

-- An active job of the user.
abbrev pub is_own_active : ℕ → Job → Bool
is_own_active user j = opt_eq j.owner_id (some user) && is_active j.state
