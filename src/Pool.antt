-- ===== src/Pool.antt =====
-- topolib/pool_group_request.go: the tasks of one ResolveAll call. The ants pool is an argument:
-- the error of `Invoke`. Of the context only whether it is done counts.
use topographer.Base.{ℕ, ◌+◌, ◌-◌, Bool, true, false, Option, none, some, ◌||◌, if◌then◌else◌}
use topographer.Errors.{Err, context_is_closed, wrap}

-- `pending` is the counter of the wait group, `cancelled` says that `cancel` was called.
pub record Group : Type 0 where
  pub pending : ℕ
  pub cancelled : Bool

abbrev pub new_group : Group
new_group = record { pending = 0; cancelled = false }

abbrev invoke : Option Err → Group → Group × Option Err
invoke none p = (p, none)
invoke (some e) p =
    (record p { pending = p.pending - 1; cancelled = true }, some (wrap "cannot schedule a task" e))

-- `Do`: `done` says that the caller's context is done.
unfoldable pub do_task : (done : Bool) → (refusal : Option Err) → Group → Group × Option Err
do_task done refusal p =
    if done || p.cancelled
    then (p, some context_is_closed)
    else invoke refusal (record p { pending = p.pending + 1 })
