-- ===== src/Resolve/Waiting.antt =====
-- A call of Resolve of topolib/topographer.go with its task (resolveIP), the context of the call, and a
-- Shutdown that waits for the lock: the goroutines as steps that may come in any order. The call holds the
-- read lock from its beginning to its return.
use topographer.Base.{ℕ, suc, ◌≡◌, refl, ◌⊎◌, inl, inr, Bool, true, false, arith}

-- The call receives from the result channel, has a result, or has returned.
pub data Caller : Type 0 where
  receiving : Caller
  received : Caller
  returned : Caller

-- The task waits for its lookups, is at the `select` in the end, or has ended.
pub data Task : Type 0 where
  looking_up : Task
  selecting : Task
  ended : Task

-- `readers` counts the read locks, `closed` says that Shutdown got the lock and closed the topographer.
pub record Call : Type 0 where
  pub caller : Caller
  pub task : Task
  pub is_done : Bool
  pub readers : ℕ
  pub closed : Bool

abbrev pub call : Caller → Task → Bool → ℕ → Bool → Call
call c t d n b = record { caller = c; task = t; is_done = d; readers = n; closed = b }

-- The task was started, and no other call holds the lock.
abbrev pub new_call : Call
new_call = call receiving looking_up false 1 false

pub data Step : Call → Call → Type 0 where
  expires :
      (c : Caller) (t : Task) (n : ℕ) (b : Bool) → Step (call c t false n b) (call c t true n b)
  looks_up :
      (c : Caller) (d : Bool) (n : ℕ) (b : Bool)
      → Step (call c looking_up d n b) (call c selecting d n b)
  -- The channel has no buffer.
  sends :
      (d : Bool) (n : ℕ) (b : Bool)
      → Step (call receiving selecting d n b) (call received ended d n b)
  drops : (c : Caller) (n : ℕ) (b : Bool) → Step (call c selecting true n b) (call c ended true n b)
  -- `wg.Wait()`, and the deferred unlock.
  returns :
      (d : Bool) (n : ℕ) (b : Bool)
      → Step (call received ended d (suc n) b) (call returned ended d n b)
  shuts : (c : Caller) (t : Task) (d : Bool) → Step (call c t d 0 false) (call c t d 0 true)

pub data Steps : Call → Call → Type 0 where
  stays : (u : Call) → Steps u u
  then : (u v w : Call) → Step u v → Steps v w → Steps u w

-- The task has ended and the call still receives.
abbrev pub IsWedged : Call → Type 0
IsWedged u = (u.caller ≡ receiving) × (u.task ≡ ended) × (u.readers ≡ 1)

-- What holds of a call that was started.
abbrev Holds : Caller → Task → Bool → ℕ → Bool → Type 0
Holds receiving ended d n b = (d ≡ true) × (n ≡ 1) × (b ≡ false)
Holds receiving _ d n b = (n ≡ 1) × (b ≡ false)
Holds received ended d n b = (n ≡ 1) × (b ≡ false)
Holds returned ended d n b = n ≡ 0
Holds _ _ d n b = ⊥

abbrev IsStarted : Call → Type 0
IsStarted u = Holds u.caller u.task u.is_done u.readers u.closed

Step-IsStarted : (u v : Call) → Step u v → IsStarted u → IsStarted v
Step-IsStarted u v (expires receiving looking_up n b) h = h
Step-IsStarted u v (expires receiving selecting n b) h = h
Step-IsStarted u v (expires receiving ended n b) (_, one, opens) = (refl, one, opens)
Step-IsStarted u v (expires received ended n b) h = h
Step-IsStarted u v (expires returned ended n b) h = h
Step-IsStarted u v (looks_up receiving d n b) h = h
Step-IsStarted u v (sends d n b) h = h
Step-IsStarted u v (drops receiving n b) (one, opens) = (refl, one, opens)
Step-IsStarted u v (returns d n b) h = omega (arith, h.0)
Step-IsStarted u v (shuts receiving looking_up d) h = absurd (omega (arith, h.0))
Step-IsStarted u v (shuts receiving selecting d) h = absurd (omega (arith, h.0))
Step-IsStarted u v (shuts receiving ended d) h = absurd (omega (arith, h.1))
Step-IsStarted u v (shuts received ended d) h = absurd (omega (arith, h.0))
Step-IsStarted u v (shuts returned ended d) h = h
Step-IsStarted u v (expires received looking_up n b) h = absurd h
Step-IsStarted u v (expires received selecting n b) h = absurd h
Step-IsStarted u v (expires returned looking_up n b) h = absurd h
Step-IsStarted u v (expires returned selecting n b) h = absurd h
Step-IsStarted u v (looks_up received d n b) h = absurd h
Step-IsStarted u v (looks_up returned d n b) h = absurd h
Step-IsStarted u v (drops received n b) h = absurd h
Step-IsStarted u v (drops returned n b) h = absurd h
Step-IsStarted u v (shuts received looking_up d) h = absurd h
Step-IsStarted u v (shuts received selecting d) h = absurd h
Step-IsStarted u v (shuts returned looking_up d) h = absurd h
Step-IsStarted u v (shuts returned selecting d) h = absurd h

Steps-IsStarted : (u v : Call) → Steps u v → IsStarted u → IsStarted v
Steps-IsStarted u v (stays _) h = h
Steps-IsStarted u w (then _ v _ s r) h = Steps-IsStarted v w r (Step-IsStarted u v s h)

abbrev IsStuck : Call → Type 0
IsStuck u = IsWedged u × (u.closed ≡ false)

Step-IsStuck : (u v : Call) → Step u v → IsStuck u → IsStuck v
Step-IsStuck u v (expires c t n b) h = h
Step-IsStuck u v (looks_up c d n b) ((_, e, _), _) = cc
Step-IsStuck u v (sends d n b) ((_, e, _), _) = cc
Step-IsStuck u v (drops c n b) ((_, e, _), _) = cc
Step-IsStuck u v (returns d n b) ((e, _, _), _) = cc
Step-IsStuck u v (shuts c t d) ((_, _, e), _) = absurd (omega (arith, e))

Steps-IsStuck : (u v : Call) → Steps u v → IsStuck u → IsStuck v
Steps-IsStuck u v (stays _) h = h
Steps-IsStuck u w (then _ v _ s r) h = Steps-IsStuck v w r (Step-IsStuck u v s h)

-- The call can return, and Shutdown can get the lock then.
abbrev pub CanReturn : Call → Type 0
CanReturn u = (v : Call) × Steps u v × (v.caller ≡ returned) × (v.closed ≡ true)

abbrev pub CanWedge : Call → Type 0
CanWedge u = (v : Call) × Steps u v × IsWedged v

shut_from : (d b : Bool) → CanReturn (call returned ended d 0 b)
shut_from d true = (_, stays _, refl, refl)
shut_from d false = (_, then _ _ _ (shuts returned ended d) (stays _), refl, refl)

before : (u v : Call) → Step u v → CanReturn v → CanReturn u
before u v s (w, r, a, b) = (w, then u v w s r, a, b)

return_from : (d : Bool) → CanReturn (call received ended d 1 false)
return_from d = before _ _ (returns d 0 false) (shut_from d false)

send_from : (d : Bool) → CanReturn (call receiving selecting d 1 false)
send_from d = before _ _ (sends d 1 false) (return_from d)

drop_from : (d : Bool) → CanWedge (call receiving selecting d 1 false)
drop_from true = (_, then _ _ _ (drops receiving 1 false) (stays _), (refl, refl, refl))
drop_from false = (
  _,
  then _ _ _ (expires receiving selecting 1 false) (then _ _ _ (drops receiving 1 false) (stays _)),
  (refl, refl, refl),
)

-- The two ways of a call.
abbrev pub IsBlocked : Call → Type 0
IsBlocked u = (u.is_done ≡ true) × ((v : Call) → Steps u v → IsWedged v × (v.closed ≡ false))

abbrev pub IsOpen : Call → Type 0
IsOpen u = CanReturn u × (u.caller ≡ receiving → CanWedge u)

ways :
    (c : Caller) (t : Task) (d : Bool) (n : ℕ) (b : Bool)
    → Holds c t d n b
    → (IsWedged (call c t d n b) × IsBlocked (call c t d n b)) ⊎ IsOpen (call c t d n b)
ways receiving looking_up d n b (one, opens) =
    let (v, r, w) = drop_from d in
    rw (one, opens)
      (inr (
        before _ _ (looks_up receiving d 1 false) (send_from d),
        λ e. (v, then _ _ _ (looks_up receiving d 1 false) r, w),
      ))
ways receiving selecting d n b (one, opens) = rw (one, opens) (inr (send_from d, λ e. drop_from d))
ways receiving ended d n b (done, one, opens) = inl (
  (refl, refl, one),
  (done, λ v r. Steps-IsStuck (call receiving ended d n b) v r ((refl, refl, one), opens)),
)
ways received ended d n b (one, opens) = rw (one, opens) (inr (return_from d, λ e. cc))
ways returned ended d n b none_left = rw none_left (inr (shut_from d b, λ e. cc))
ways received looking_up d n b h = absurd h
ways received selecting d n b h = absurd h
ways returned looking_up d n b h = absurd h
ways returned selecting d n b h = absurd h

-- Where no other call holds the lock: whatever has happened since a call of Resolve has started its
-- task, one of two things holds. Either the context is done, the task has ended without a result, and the
-- call receives for ever: it keeps its read lock whatever happens next, so that a Shutdown never gets the
-- lock. Or the call can still return and a Shutdown can get the lock then; but as long as the call has no
-- result, it can still be blocked, by a context that ends.
pub waiting_cases : (u : Call) → Steps new_call u → (IsWedged u × IsBlocked u) ⊎ IsOpen u
waiting_cases u run =
    ways u.caller u.task u.is_done u.readers u.closed (Steps-IsStarted new_call u run (refl, refl))
