-- ===== src/Resolve/Samples.antt =====
-- Lookups and batches of topolib/topographer.go with two providers.
use mathlib.Core.List.{Permᴰ}
use topographer.Base.{
  IsDistinct, String, ◌≡◌, refl, ◌⊎◌, Bool, true, false, Option, none, some, List, [], ◌∷◌, arith,
  string_eq, nat_eq,
}
use topographer.Base.Time.{pos}
use topographer.Base.Assoc.{lookup, insert}
use topographer.Errors.{message, ok, err, topographer_shutdown}
use topographer.Structs.{Ip, ip_beq, ip_eq, to16, ResolveResult, ResolveResultDetail, blank_result}
use topographer.Stats.{new_stats, notify_used}
use topographer.Topographer.{Provider, Topographer, get_providers_to_use, shutdown}
use topographer.Pool.{do_task}
use topographer.Resolve.{
  Stats, detail_of, Ending, resolve_ip_lookup, collect, resolve_ip, TaskRun, sent_result, resolve,
  Attempt, schedule, insert_by, sort_by, resolve_all,
}
use topographer.Resolve.Lookups.{sent, events, map_stats, collect-accounts}
use topographer.Resolve.Batch.{accepted, no_more, unanswered, answered, resolve_all-keeps_order}
use topographer.Resolve.Single.{shutdown-refuses}
use topographer.Resolve.Waiting.{
  Call, call, receiving, selecting, ended, expires, looks_up, drops, stays, then, IsWedged,
  IsBlocked, IsOpen, waiting_cases,
}

program : Unit {0}
unfolding resolve_ip_lookup detail_of collect resolve_ip sent_result resolve schedule sort_by
    insert_by resolve_all lookup insert ip_beq to16 do_task get_providers_to_use shutdown
    notify_used
program = tt

abbrev lima : Provider
lima = record {
  name = "lima";
  is_offline = false;
  lookup = λ ip. ok (record { country_code = 1; city = "Lima" });
}

abbrev broken : Provider
broken = record { name = "broken"; is_offline = false; lookup = λ ip. err (message "no data") }

abbrev providers : List (String × Provider)
providers = ("lima", lima) ∷ ("broken", broken) ∷ []

abbrev stats : Stats
stats = ("lima", new_stats "lima") ∷ ("broken", new_stats "broken") ∷ []

abbrev instance_up : Topographer
instance_up = record {
  providers = providers;
  provider_stats = stats;
  closed = false;
  once = false;
  released = 0;
  stopped = [];
}

abbrev address : Ip
address = 1 ∷ 2 ∷ 3 ∷ 4 ∷ []

abbrev other_address : Ip
other_address = 9 ∷ 9 ∷ 9 ∷ 9 ∷ []

abbrev endings : List Ending
endings =
    record { provider = broken; now = pos 3; delivered = true }
    ∷ record { provider = lima; now = pos 4; delivered = false }
    ∷ []

collect-accounts_example :
    (stats' : Stats) × (collect address endings (stats, []) ≡ some (stats', sent address endings))
    × ((name : String)
        → lookup name stats' ≡ map_stats (events address name endings) (lookup name stats))
unfolding program
collect-accounts_example = collect-accounts address endings stats [] ((λ e. cc), ((λ e. cc), tt))

-- The second task sends nothing, and the third address comes first.
abbrev attempts : List Attempt
attempts =
    record { ip = address; done = false; refusal = none }
    ∷ record { ip = 7 ∷ 7 ∷ 7 ∷ 7 ∷ []; done = false; refusal = none }
    ∷ record { ip = other_address; done = false; refusal = none }
    ∷ record { ip = 8 ∷ 8 ∷ 8 ∷ 8 ∷ []; done = true; refusal = none }
    ∷ []

abbrev first_result : ResolveResult
first_result = blank_result (to16 address)

abbrev third_result : ResolveResult
third_result = blank_result (to16 other_address)

abbrev arrive : List Ip → List Provider → List ResolveResult
arrive ips ps = third_result ∷ first_result ∷ []

batch_runs :
    resolve_all instance_up providers arrive attempts ("lima" ∷ [])
    ≡ ok (first_result ∷ third_result ∷ [])
unfolding program
batch_runs = refl

IsDistinct-addresses : IsDistinct (accepted attempts)
unfolding program
IsDistinct-addresses =
    (((λ e. ground arith), ((λ e. ground arith), tt)), (((λ e. ground arith), tt), (tt, tt)))

resolve_all-keeps_order_example :
    resolve_all instance_up providers arrive attempts [] ≡ ok (first_result ∷ third_result ∷ [])
unfolding program
resolve_all-keeps_order_example =
    resolve_all-keeps_order instance_up providers arrive attempts [] (lima ∷ broken ∷ [])
      (first_result ∷ third_result ∷ []) refl refl IsDistinct-addresses
      (answered first_result (unanswered _ (answered third_result no_more)))
      ∣ Permᴰ.swap refl refl ∣₁

abbrev merge : Ip → List ResolveResultDetail → Option ResolveResult
merge ip details = some (record (blank_result ip) { details = details })

-- Both lookups get through, and the result is sent or not.
abbrev task : Bool → Ip → List Provider → TaskRun
task is_sent ip ps = record {
  endings =
      record { provider = broken; now = pos 3; delivered = true }
      ∷ record { provider = lima; now = pos 4; delivered = true }
      ∷ [];
  is_sent = is_sent;
}

resolve_runs :
    (resolve instance_up providers false none merge (task true) address []
      ≡ some (
        record (blank_result (to16 address)) {
          details =
              record { provider_name = "broken"; country_code = 0; city = "" }
              ∷ record { provider_name = "lima"; country_code = 1; city = "Lima" }
              ∷ [];
        },
        none,
      ))
    × (resolve instance_up providers false none merge (task false) address [] ≡ none)
unfolding program
resolve_runs = (refl, refl)

-- The context ends while the task waits for its lookups.
abbrev wedged : Call
wedged = call receiving ended true 1 false

waiting_cases_example : (IsWedged wedged × IsBlocked wedged) ⊎ IsOpen wedged
waiting_cases_example = waiting_cases wedged (
    then _ _ _ (looks_up receiving false 1 false) (
      then _ _ _ (expires receiving selecting 1 false)
        (then _ _ _ (drops receiving 1 false) (stays _))))

shutdown-refuses_example :
    (resolve (shutdown instance_up) providers false none merge (task true) address []
      ≡ some (blank_result (to16 address), some topographer_shutdown))
    × (resolve_all (shutdown instance_up) providers arrive attempts [] ≡ err topographer_shutdown)
shutdown-refuses_example =
    shutdown-refuses instance_up providers false none merge (task true) arrive address attempts []
