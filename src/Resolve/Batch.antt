-- ===== src/Resolve/Batch.antt =====
-- ResolveAll of topolib/topographer.go: the results stand in the order of the addresses.
use mathlib.Core.List.{Perm, append_assoc, append-nil}
use topographer.Base.{
  IsDistinct, ℕ, suc, ◌+◌, ◌≡◌, ◌≢◌, refl, sym, ap, subst, ◌∙◌, String, false, none, some, List, [],
  ◌∷◌, ◌++◌, arith, All, if◌then◌else◌, String-set, ◌⊎◌, inl, inr,
}
use topographer.Base.Assoc.{lookup, insert, lookup-insert}
use topographer.Errors.{ok}
use topographer.Structs.{Ip, to16, ip_eq, ip_beq_iff, ResolveResult}
use topographer.Topographer.{Provider, Topographer, get_providers_to_use}
use topographer.Pool.{Group, new_group, do_task}
use topographer.Resolve.{Attempt, Schedule, empty_schedule, schedule, index_of, resolve_all}
use topographer.Resolve.Order.{RisesFrom, RisesFrom-mono, sort_by_arrangement}

-- The addresses before the first whose attempt fails.
abbrev pub accepted : List Attempt → List Ip
accepted [] = []
accepted (a ∷ rest) =
    if a.done then [] else elim a.refusal [ some e ↦ [] | none ↦ to16 a.ip ∷ accepted rest ]

-- The addresses have their numbers, from `n` on.
abbrev pub IsIndexed : List (Ip × ℕ) → ℕ → List Ip → Type 0
IsIndexed m n [] = Unit
IsIndexed m n (ip ∷ ips) = (lookup ip m ≡ some n) × IsIndexed m (suc n) ips

-- The request after a task that it took.
abbrev more : Group → Group
more p = record p { pending = p.pending + 1 }

-- The loop after the address `ip` at index `i`.
abbrev with_ip : ℕ → Ip → Schedule → Schedule
with_ip i ip s = record {
  ips_to_index = insert ip i s.ips_to_index;
  scheduled = s.scheduled ++ ip ∷ [];
}

schedule_cases :
    (i : ℕ) (p : Group) (a : Attempt) (rest : List Attempt) (s : Schedule)
    → p.cancelled ≡ false
    → ((accepted (a ∷ rest) ≡ []) × (schedule i p (a ∷ rest) s ≡ s))
      ⊎ ((accepted (a ∷ rest) ≡ to16 a.ip ∷ accepted rest)
          × (schedule i p (a ∷ rest) s ≡ schedule (i + 1) (more p) rest (with_ip i (to16 a.ip) s)))
unfolding schedule do_task
schedule_cases i p a rest s h = ground arith

-- Everything that is scheduled, in the order of the addresses.
schedule-scheduled :
    (i : ℕ) (p : Group) (l : List Attempt) (s : Schedule)
    → p.cancelled ≡ false
    → (schedule i p l s).scheduled ≡ s.scheduled ++ accepted l
unfolding schedule
schedule-scheduled i p [] s h = sym (append-nil s.scheduled)
schedule-scheduled i p (a ∷ rest) s h = elim (schedule_cases i p a rest s h) [
  | inl (e, f) ↦ rw (e, f) (sym (append-nil s.scheduled))
  | inr (e, f) ↦
      rw (e, f)
        (schedule-scheduled (i + 1) (more p) rest (with_ip i (to16 a.ip) s) h
          ∙ append_assoc s.scheduled _ _)
]

lookup-with_ip :
    (i : ℕ) (ip j : Ip) (s : Schedule)
    → ip ≢ j
    → lookup j (with_ip i ip s).ips_to_index ≡ lookup j s.ips_to_index
lookup-with_ip i ip j s n = ground (arith, lookup-insert ip j i s.ips_to_index, ip_beq_iff ip j)

lookup-with_ip-same :
    (i : ℕ) (ip : Ip) (s : Schedule) → lookup ip (with_ip i ip s).ips_to_index ≡ some i
lookup-with_ip-same i ip s = ground (arith, lookup-insert ip ip i s.ips_to_index, ip_beq_iff ip ip)

-- An address that does not come up keeps its index.
schedule-other :
    (i : ℕ) (p : Group) (l : List Attempt) (s : Schedule) (j : Ip)
    → p.cancelled ≡ false
    → All (λ k. j ≢ k) (accepted l)
    → lookup j (schedule i p l s).ips_to_index ≡ lookup j s.ips_to_index
unfolding schedule
schedule-other i p [] s j h n = refl
schedule-other i p (a ∷ rest) s j h n = elim (schedule_cases i p a rest s h) [
  | inl (e, f) ↦ rw f refl
  | inr (e, f) ↦
      let n' = subst (All (λ k. j ≢ k)) e n in
      rw f (
        schedule-other (i + 1) (more p) rest (with_ip i (to16 a.ip) s) j h n'.1
        ∙ lookup-with_ip i (to16 a.ip) j s (λ q. n'.0 (sym q)))
]

schedule-IsIndexed :
    (i : ℕ) (p : Group) (l : List Attempt) (s : Schedule)
    → p.cancelled ≡ false
    → IsDistinct (accepted l)
    → IsIndexed (schedule i p l s).ips_to_index i (accepted l)
schedule-IsIndexed i p [] s h d = tt
schedule-IsIndexed i p (a ∷ rest) s h d = elim (schedule_cases i p a rest s h) [
  | inl (e, f) ↦ subst (IsIndexed (schedule i p (a ∷ rest) s).ips_to_index i) (sym e) tt
  | inr (e, f) ↦
      let d' = subst IsDistinct e d in
      let s' = with_ip i (to16 a.ip) s in
      let found =
        schedule-other (i + 1) (more p) rest s' (to16 a.ip) h d'.0
        ∙ lookup-with_ip-same i (to16 a.ip) s in
      let next : i + 1 ≡ suc i = omega arith in
      let later =
        subst (λ n. IsIndexed (schedule (i + 1) (more p) rest s').ips_to_index n (accepted rest))
          next (schedule-IsIndexed (i + 1) (more p) rest s' h d'.1) in
      subst (λ l. IsIndexed (schedule i p (a ∷ rest) s).ips_to_index i l) (sym e)
        (subst (λ t. IsIndexed t.ips_to_index i (to16 a.ip ∷ accepted rest)) (sym f) (found, later))
]

-- The results are for addresses of the list, in its order: some addresses may have none, since a
-- task that meets a done context sends nothing.
pub data Answers : List ResolveResult → List Ip → Type 0 where
  no_more : Answers [] []
  unanswered :
      {rs : List ResolveResult} {ips : List Ip} (ip : Ip) → Answers rs ips → Answers rs (ip ∷ ips)
  answered :
      {rs : List ResolveResult} {ips : List Ip} (r : ResolveResult)
      → Answers rs ips
      → Answers (r ∷ rs) (r.ip ∷ ips)

Answers-rise :
    (m : List (Ip × ℕ)) (n : ℕ) (rs : List ResolveResult) (ips : List Ip)
    → Answers rs ips
    → IsIndexed m n ips
    → RisesFrom (index_of m) n rs
Answers-rise m n _ _ no_more h = tt
Answers-rise m n rs _ (unanswered ip a) h =
    RisesFrom-mono (index_of m) n (suc n) rs (omega arith) (Answers-rise m (suc n) rs _ a h.1)
Answers-rise m n _ _ (answered {rs = rs} {ips = ips} r a) h =
    let here : index_of m r ≡ n = rw h.0 refl in
    (omega arith, rw here (Answers-rise m (suc n) rs ips a h.1))

-- What happens to the results on the way through the result channel: they may come in any order.
module _ (t : Topographer) (order : List (String × Provider))
    (arrive : List Ip → List Provider → List ResolveResult) where
  -- If the topographer is open, the providers are known and the scheduled addresses differ, then the
  -- batch answers exactly what came through the channel, in the order of the given addresses, in
  -- whichever order it came.
  pub resolve_all-keeps_order :
      (as' : List Attempt) (names : List String) (ps : List Provider) (rs : List ResolveResult)
      → t.closed ≡ false
      → get_providers_to_use order t.providers names ≡ ok ps
      → IsDistinct (accepted as')
      → Answers rs (accepted as')
      → Perm (arrive (accepted as') ps) rs
      → resolve_all t order arrive as' names ≡ ok rs
  unfolding resolve_all
  resolve_all-keeps_order as' names ps rs c g d a p =
      let sched = schedule 0 new_group as' empty_schedule in
      let all : sched.scheduled ≡ accepted as' =
        schedule-scheduled 0 new_group as' empty_schedule refl in
      rw (c, g, all)
        (ap ok (
          sort_by_arrangement (index_of sched.ips_to_index) (hlevel String-set) 0 rs
            (arrive (accepted as') ps)
            (Answers-rise sched.ips_to_index 0 rs (accepted as') a
              (schedule-IsIndexed 0 new_group as' empty_schedule refl d))
            p))
