-- ===== src/Concurrency/Exits.antt =====
-- src/structured-concurrency/oracle.ts: what leaving an open scope does to scopes and tasks.
use semantic_systems.Base.{◌≡◌, ◌↔◌, true, false, ◌&&◌, some, All, if◌then◌else◌}
use semantic_systems.Kernel.Row.{Text, text_eq}
use semantic_systems.Concurrency.Oracle.{OracleTask, Oracle, get_scope, get_task, is_open, is_owner}
use semantic_systems.Concurrency.Requests.{is_live_in}

-- No open scope stands in the scope, and no live task is owned by it.
abbrev pub IsEmptyScope : Text → Oracle → Type 0
IsEmptyScope scope o =
    All (λ u. (is_owner u.parent scope && is_open (some u)) ≡ false) o.scopes
    × All (λ t. is_live_in scope t ≡ false) o.tasks

-- What leaving a scope does: it closes exactly an empty one, it leaves the other scopes, and it
-- requests the cancellation of the live tasks of the scope and leaves the other tasks.
pub record Exits (scope : Text) (o o' : Oracle) : Type 0 where
  pub closes : (is_open (get_scope o'.scopes scope) ≡ false) ↔ IsEmptyScope scope o
  pub others : (k : Text) → text_eq k scope ≡ false → get_scope o'.scopes k ≡ get_scope o.scopes k
  pub requests :
      (task : Text) (t : OracleTask)
      → get_task o.tasks task ≡ some t
      → get_task o'.tasks task
        ≡ some (if is_live_in scope t then record t { cancellation_requested = true } else t)
