-- ===== src/Resolve.antt =====
-- topolib/topographer.go: one lookup, one address with all its providers, and a batch of addresses.
-- The goroutines are given by what they do in the order in which they end: the clock, and whether
-- their value gets through the channel (it may not, once the context is done).
pub mod Lookups
pub mod Order
pub mod Batch
pub mod Single
pub mod Waiting
mod Samples
use topographer.Base.{
  ℕ, suc, ◌+◌, String, Bool, true, false, Option, none, some, List, [], ◌∷◌, ◌++◌, map, ◌==◌,
  string_eq, nat_eq, if◌then◌else◌, leb, ltb,
}
use topographer.Base.Time.{Time}
use topographer.Base.Assoc.{lookup, insert, get_or_zero}
use topographer.Errors.{Err, topographer_shutdown, Result, ok, err}
use topographer.Structs.{
  Ip, to16, ip_eq, ResolveResult, ResolveResultDetail, ProviderLookupResult, blank_result,
}
use topographer.Stats.{UsageStats, notify_used}
use topographer.Topographer.{Provider, Topographer, get_providers_to_use}
use topographer.Pool.{Group, new_group, do_task}

abbrev pub Stats : Type 0
Stats = List (String × UsageStats)

abbrev pub error_of {ℓ} : {A : Type ℓ} → Result A → Option Err
error_of (ok a) = none
error_of (err e) = some e

abbrev fill : String → Result ProviderLookupResult → ResolveResultDetail
fill name (ok res) = record {
  provider_name = name;
  country_code = res.country_code;
  city = res.city;
}
fill name (err e) = record { provider_name = name; country_code = 0; city = "" }

-- What the goroutine of `resolveIPLookup` sends.
unfoldable pub detail_of : Ip → Provider → ResolveResultDetail
detail_of ip p = fill p.name (p.lookup ip)

-- The counters of a name that is not there are a nil pointer: `none` is the panic.
abbrev pub notify : String → Time → Option Err → Stats → Option Stats
notify name now e stats = elim (lookup name stats) [
  | none ↦ none
  | some u ↦ some (insert name (notify_used now e u) stats)
]

-- The end of one of these goroutines.
pub record Ending : Type 0 where
  pub provider : Provider
  pub now : Time
  pub delivered : Bool

unfoldable pub resolve_ip_lookup :
    Ip → Ending → Stats × List ResolveResultDetail → Option (Stats × List ResolveResultDetail)
unfolding detail_of
resolve_ip_lookup ip g (stats, rv) =
    elim (notify g.provider.name g.now (error_of (g.provider.lookup ip)) stats) [
      | none ↦ none
      | some stats' ↦ some (stats', if g.delivered then rv ++ detail_of ip g.provider ∷ [] else rv)
    ]

-- The loop of `resolveIP`: the counters, and the details to merge.
unfoldable pub collect :
    Ip → List Ending → Stats × List ResolveResultDetail → Option (Stats × List ResolveResultDetail)
collect ip [] s = some s
collect ip (g ∷ gs) s = elim (resolve_ip_lookup ip g s) [ none ↦ none | some s' ↦ collect ip gs s' ]

-- `resolveIP`, with the merge as an argument; a result that is not sent is `none`.
unfoldable pub resolve_ip :
    (Ip → List ResolveResultDetail → Option ResolveResult)
    → Ip
    → List Ending
    → Stats
    → Option (Stats × ResolveResult)
resolve_ip merge ip gs stats = elim (collect ip gs (stats, [])) [
  | none ↦ none
  | some (stats', rv) ↦ elim (merge ip rv) [ none ↦ none | some r ↦ some (stats', r) ]
]

-- How the task of an address goes: the ends of its goroutines, and whether the `select` in the end sends
-- the result (it may not, once the context is done).
pub record TaskRun : Type 0 where
  pub endings : List Ending
  pub is_sent : Bool

-- What the task sends to the result channel: `none` is nothing.
unfoldable pub sent_result :
    (Ip → List ResolveResultDetail → Option ResolveResult)
    → Stats
    → Ip
    → TaskRun
    → Option ResolveResult
unfolding resolve_ip
sent_result merge stats ip k = elim (resolve_ip merge ip k.endings stats) [
  | none ↦ none
  | some (_, r) ↦ if k.is_sent then some r else none
]

-- `Resolve`: `order` is the map of providers as visited, `done` and `refusal` are what the group
-- request meets, `task` is how the task goes for the address and the providers. The receive from
-- the result channel is unconditional: where the task panics or sends nothing, the call does not return
-- (`none`). Waiting has the steps of the two goroutines, and the lock.
unfoldable pub resolve :
    Topographer
    → List (String × Provider)
    → (done : Bool) (refusal : Option Err)
    → (merge : Ip → List ResolveResultDetail → Option ResolveResult)
      (task : Ip → List Provider → TaskRun)
    → Ip
    → List String
    → Option (ResolveResult × Option Err)
unfolding sent_result
resolve t order done refusal merge task ip names =
    let addr = to16 ip in
    if t.closed
    then some (blank_result addr, some topographer_shutdown)
    else elim (get_providers_to_use order t.providers names) [
      | err e ↦ some (blank_result addr, some e)
      | ok ps ↦ elim (do_task done refusal new_group).1 [
        | some e ↦ some (blank_result addr, none)
        | none ↦ elim (sent_result merge t.provider_stats addr (task addr ps)) [
          | none ↦ none
          | some r ↦ some (r, none)
        ]
      ]
    ]

-- The loop of `ResolveAll` over the addresses: what is scheduled, and `ipsToIndex`. An attempt is
-- what the group request meets; where there is none left the loop is cut.
pub record Schedule : Type 0 where
  pub ips_to_index : List (Ip × ℕ)
  pub scheduled : List Ip

abbrev pub empty_schedule : Schedule
empty_schedule = record { ips_to_index = []; scheduled = [] }

-- An address, and what its attempt meets.
pub record Attempt : Type 0 where
  pub ip : Ip
  pub done : Bool
  pub refusal : Option Err

unfoldable pub schedule : ℕ → Group → List Attempt → Schedule → Schedule
schedule i p [] s = s
schedule i p (a ∷ rest) s =
    let ip = to16 a.ip in
    let (p', e) = do_task a.done a.refusal p in
    elim e [
      | some x ↦ s
      | none ↦
          schedule (i + 1) p' rest (record {
            ips_to_index = insert ip i s.ips_to_index;
            scheduled = s.scheduled ++ ip ∷ [];
          })
    ]

-- `sort.Slice` by the index of the address; equal keys, which sort.Slice leaves in any order, stay
-- as they came.
module _ {ℓ} {A : Type ℓ} (key : A → ℕ) where
  insert_by : A → List A → List A
  insert_by x [] = x ∷ []
  insert_by x (y ∷ ys) = if ltb (key y) (key x) then y ∷ insert_by x ys else x ∷ y ∷ ys

  unfoldable pub sort_by : List A → List A
  unfolding insert_by
  sort_by [] = []
  sort_by (x ∷ xs) = insert_by x (sort_by xs)

abbrev pub index_of : List (Ip × ℕ) → ResolveResult → ℕ
index_of m r = get_or_zero (lookup r.ip m)

-- `ResolveAll`: `arrive` is what comes through the result channel for the scheduled addresses.
unfoldable pub resolve_all :
    Topographer
    → List (String × Provider)
    → (List Ip → List Provider → List ResolveResult)
    → List Attempt
    → List String
    → Result (List ResolveResult)
resolve_all t order arrive ips names =
    if t.closed
    then err topographer_shutdown
    else elim (get_providers_to_use order t.providers names) [
      | err e ↦ err e
      | ok ps ↦
          let s = schedule 0 new_group ips empty_schedule in
          ok (sort_by (index_of s.ips_to_index) (arrive s.scheduled ps))
    ]
