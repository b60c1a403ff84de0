-- ===== src/Http/Backend.antt =====
-- The HTTP handler of topolib/http.go on top of a Topographer (topolib/topographer.go).
use topographer.Base.{
  String, ◌≡◌, refl, sym, ap, ◌∙◌, ◌⊎◌, inl, inr, Bool, Option, none, some, List, [], ◌∷◌, map,
  arith,
}
use topographer.Errors.{Err, err, topographer_shutdown}
use topographer.Structs.{Ip, to16, ResolveResult, ResolveResultDetail, blank_result}
use topographer.Stats.{UsageStats}
use topographer.Topographer.{Provider, Topographer, shutdown, usage_stats}
use topographer.Resolve.{TaskRun, resolve, resolve_all}
use topographer.Resolve.Single.{shutdown-refuses}
use topographer.Http.{
  Payload, stats, Writer, new_writer, content_type, Resolver, HttpRequest, Codec,
  handle_post_unique_ips, handle_post_unique_providers, serve_http,
}
use topographer.Http.Answers.{
  IsComplete, complete_one, complete_all, complete_stats, IsFailure, IsAnswered,
}
use topographer.Http.Replies.{serve_http-IsAnswered}

-- What surrounds the calls of a handler: the orders of the two maps, what the pool and the contexts do,
-- and what comes through the result channels.
pub record Surroundings : Type 0 where
  pub provider_order : List (String × Provider)
  pub stats_order : List (String × UsageStats)
  pub is_done : Ip → Bool
  pub refusal : Ip → Option Err
  pub merge : Ip → List ResolveResultDetail → Option ResolveResult
  pub task : Ip → List Provider → TaskRun
  pub arrive : List Ip → List Provider → List ResolveResult

-- The methods of a Topographer that the handler calls.
unfoldable pub resolver_of : Topographer → Surroundings → Resolver
resolver_of t s = record {
  resolve =
      λ ip names. resolve t s.provider_order (s.is_done ip) (s.refusal ip) s.merge s.task ip names;
  resolve_all = λ ips names.
      resolve_all t s.provider_order s.arrive
        (map (λ ip. record { ip = ip; done = s.is_done ip; refusal = s.refusal ip }) ips) names;
  usage_stats = usage_stats s.stats_order;
}

-- No address is resolved.
record IsRefusing (h : Resolver) : Type 0 where
  one_refused :
      (ip : Ip) (names : List String)
      → h.resolve ip names ≡ some (blank_result (to16 ip), some topographer_shutdown)
  all_refused :
      (ips : List Ip) (names : List String) → h.resolve_all ips names ≡ err topographer_shutdown

resolver_of-IsRefusing :
    (t : Topographer) (s : Surroundings) → IsRefusing (resolver_of (shutdown t) s)
unfolding resolver_of
resolver_of-IsRefusing t s = record {
  one_refused = λ ip names.
      (shutdown-refuses t s.provider_order (s.is_done ip) (s.refusal ip) s.merge s.task s.arrive ip
        [] names).0;
  all_refused = λ ips names.
      (shutdown-refuses t s.provider_order (s.is_done []) none s.merge s.task s.arrive []
        (map (λ ip. record { ip = ip; done = s.is_done ip; refusal = s.refusal ip }) ips) names).1;
}

-- The listing of the counters, or an error.
abbrev pub IsListingOrFailure : List UsageStats → Option Writer → Type 0
IsListingOrFailure us none = ⊥
IsListingOrFailure us (some w) =
    ((w.body ≡ stats us ∷ []) × (w.sent ≡ some (200, content_type ∷ []))) ⊎ IsFailure w

module _ (c : Codec) (req : HttpRequest) where
  only_stats :
      (h : Resolver) (p : Payload) → IsRefusing h → IsComplete c h req p → p ≡ stats h.usage_stats
  only_stats h p k (complete_one ip r a e o) = cc (sym e ∙ k.one_refused ip [])
  only_stats h p k (complete_all q rs a e o) = cc (
      sym e
      ∙ k.all_refused (handle_post_unique_ips c q.ips) (handle_post_unique_providers c q.providers))
  only_stats h p k (complete_stats g a) = refl

  refused_answer :
      (h : Resolver)
      → IsRefusing h
      → (o : Option Writer) → IsAnswered c h req o
      → IsListingOrFailure h.usage_stats o
  refused_answer h k none (ip, _, waits) = ground (arith, k.one_refused ip [])
  refused_answer h k (some w) (inr failed) = inr failed
  refused_answer h k (some w) (inl (p, complete, body, sent)) =
      inl (body ∙ ap (λ q. q ∷ []) (only_stats h p k complete), sent)

-- After `Shutdown` the handler answers every request: with the listing of the counters (status 200)
-- or with an error (status 400 to 599), never with the result of a lookup, and never by waiting.
pub shutdown-serve_http :
    (t : Topographer) (s : Surroundings) (c : Codec) (req : HttpRequest)
    → IsListingOrFailure
        (usage_stats s.stats_order)
        (serve_http c (resolver_of (shutdown t) s) req new_writer)
unfolding resolver_of
shutdown-serve_http t s c req =
    let h = resolver_of (shutdown t) s in
    refused_answer c req h (resolver_of-IsRefusing t s) (serve_http c h req new_writer)
      (serve_http-IsAnswered c h req).0
