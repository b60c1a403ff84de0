-- ===== src/Topographer/Lifecycle.antt =====
-- The shutdown of an instance (topolib/topographer.go), and the providers that a request gets.
use mathlib.Core.List.{Memᴰ}
use topographer.Base.{
  suc, String, ◌≡◌, ◌≢◌, refl, ◌⊎◌, inl, inr, true, false, none, some, List, [], ◌∷◌, ◌++◌, map,
  arith, Option-cases, string_eq,
}
use topographer.Base.Assoc.{lookup}
use topographer.Errors.{Err, Result, ok, err}
use topographer.Topographer.{
  Provider, Topographer, values, pick, get_providers_to_use, offline_names, shutdown,
}

-- The first shutdown closes the instance, releases the pool and stops each offline provider; a
-- second one changes nothing.
shutdown_once :
    (t : Topographer)
    → t.once ≡ false
    → let s = shutdown t in
      (s.closed ≡ true)
      × (s.released ≡ suc t.released)
      × (s.stopped ≡ t.stopped ++ offline_names (values t.providers))
      × (shutdown s ≡ s)
unfolding shutdown
shutdown_once t h = ground arith

-- Each entry stands under its provider's name.
abbrev pub IsKeyed : List (String × Provider) → Type 0
IsKeyed m = (k : String) (p : Provider) → lookup k m ≡ some p → p.name ≡ k

-- The names picked, all of them; or a name that is not there.
abbrev pub IsPick : List (String × Provider) → List String → Result (List Provider) → Type 0
IsPick m names r =
    ((ps : List Provider) × (r ≡ ok ps) × (map (λ (p : Provider). p.name) ps ≡ names))
    ⊎ ((e : Err) × (k : String) × (r ≡ err e) × Memᴰ k names × (lookup k m ≡ none))

pick-IsPick :
    (m : List (String × Provider)) (names : List String) → IsKeyed m → IsPick m names (pick m names)
unfolding pick
pick-IsPick m [] h = inl ([], refl, refl)
pick-IsPick m (v ∷ names) h = elim (Option-cases (lookup v m)) [
  | inl e ↦ rw (e, pick) (inr (_, v, refl, Memᴰ.head refl, e))
  | inr (p, e) ↦
      rw (e, pick)
        (elim (pick-IsPick m names h) [
          | inl (ps, found, same) ↦ inl (p ∷ ps, rw found refl, rw (h v p e, same) refl)
          | inr (x, k, lost, there, missing) ↦ inr (x, k, rw lost refl, Memᴰ.tail there, missing)
        ])
]

-- Where each provider stands under its name in the map: a request that names no provider gets every
-- one that the loop visits. If it names some and all of them are known, it gets them in its order; if
-- one of them is unknown, it fails.
get_providers_to_use_cases :
    (order m : List (String × Provider)) (names : List String)
    → IsKeyed m
    → ((names ≡ []) × (get_providers_to_use order m names ≡ ok (values order)))
      ⊎ ((names ≢ []) × IsPick m names (get_providers_to_use order m names))
unfolding get_providers_to_use
get_providers_to_use_cases order m [] h = inl (refl, refl)
get_providers_to_use_cases order m (v ∷ names) h = inr (λ e. cc, pick-IsPick m (v ∷ names) h)
