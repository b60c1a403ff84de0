-- ===== src/Resolve/Single.antt =====
-- What a topographer that is shut down answers (topolib/topographer.go).
use topographer.Base.{String, ◌≡◌, Bool, Option, some, List, arith}
use topographer.Errors.{Err, err, topographer_shutdown}
use topographer.Structs.{Ip, to16, ResolveResult, ResolveResultDetail, blank_result}
use topographer.Topographer.{Provider, Topographer, shutdown}
use topographer.Resolve.{TaskRun, resolve, resolve_all, Attempt}

-- After `Shutdown`, `Resolve` and `ResolveAll` start no lookup: both answer at once with the error of
-- a closed topographer, whichever providers are asked for.
pub shutdown-refuses :
    (t : Topographer) (order : List (String × Provider)) (done : Bool) (refusal : Option Err)
    (merge : Ip → List ResolveResultDetail → Option ResolveResult)
    (task : Ip → List Provider → TaskRun) (arrive : List Ip → List Provider → List ResolveResult)
    (ip : Ip) (ips : List Attempt) (names : List String)
    → (resolve (shutdown t) order done refusal merge task ip names
        ≡ some (blank_result (to16 ip), some topographer_shutdown))
      × (resolve_all (shutdown t) order arrive ips names ≡ err topographer_shutdown)
unfolding resolve resolve_all shutdown
shutdown-refuses t order done refusal merge task arrive ip ips names = ground arith
