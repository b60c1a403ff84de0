-- ===== src/Providers/Database/Readers.antt =====
-- The readers of the databases of providers/maxminddb_base.go and providers/ip2location.go over any
-- sequence of Open and Shutdown.
use mathlib.Core.List.{append-nil, append_assoc}
use topographer.Base.{◌≡◌, refl, sym, ap, ◌∙◌, String, Option, none, some, List, [], ◌∷◌, ◌++◌}
use topographer.Errors.{Err, wrap, Result, ok, err}
use topographer.Structs.{ProviderLookupResult}
use topographer.Country.{alpha2_to_country_code}
use topographer.Providers.Database.{Reader, LookupRecord, ReaderCodec, Database}

-- One call: Open with what opening the file gives, or Shutdown.
pub data DbCall : Type 0 where
  opens : Result Reader → DbCall
  shuts : DbCall

abbrev pub listed : Option Reader → List Reader
listed none = []
listed (some r) = r ∷ []

-- The readers that were opened, in order.
abbrev pub opened : List DbCall → List Reader
opened [] = []
opened (opens (ok r) ∷ cs) = r ∷ opened cs
opened (opens (err _) ∷ cs) = opened cs
opened (shuts ∷ cs) = opened cs

-- Only attempts to open that fail.
abbrev pub IsQuiet : List DbCall → Type 0
IsQuiet [] = Unit
IsQuiet (opens (ok _) ∷ cs) = ⊥
IsQuiet (opens (err _) ∷ cs) = IsQuiet cs
IsQuiet (shuts ∷ cs) = ⊥

-- The country and the city of what a reader gives.
abbrev pub answer : ReaderCodec → String → Result LookupRecord → Result ProviderLookupResult
answer c text (err e) = err (wrap text e)
answer c text (ok r) =
    ok (record { country_code = alpha2_to_country_code c.upper c.tables r.iso_code; city = r.city })

module _ {S : Type 0} (d : Database S) where
  abbrev pub step_db : DbCall → S → S
  step_db (opens file) s = (d.open_db file s).0
  step_db shuts s = d.shutdown_db s

  abbrev pub run_db : List DbCall → S → S
  run_db [] s = s
  run_db (c ∷ cs) s = run_db cs (step_db c s)

  -- The readers closed so far, and then the current one.
  abbrev pub handled : S → List Reader
  handled s = d.closed_readers s ++ listed (d.current s)

  -- What Open and Shutdown do to the readers.
  pub record DatabaseLaws : Type 0 where
    pub fresh-handled : handled d.fresh ≡ []
    pub open-current : (r : Reader) (s : S) → d.current (d.open_db (ok r) s).0 ≡ some r
    pub open-handled : (r : Reader) (s : S) → handled (d.open_db (ok r) s).0 ≡ handled s ++ r ∷ []
    pub open-failed : (e : Err) (s : S) → (d.open_db (err e) s).0 ≡ s
    pub shutdown-current : (s : S) → d.current (d.shutdown_db s) ≡ none
    pub shutdown-handled : (s : S) → handled (d.shutdown_db s) ≡ handled s

  module _ (l : DatabaseLaws) where
    pub run_db-handled : (cs : List DbCall) (s : S) → handled (run_db cs s) ≡ handled s ++ opened cs
    run_db-handled [] s = sym (append-nil (handled s))
    run_db-handled (opens (ok r) ∷ cs) s =
        run_db-handled cs (d.open_db (ok r) s).0
        ∙ (ap (λ l. l ++ opened cs) (l.open-handled r s) ∙ append_assoc (handled s) _ _)
    run_db-handled (opens (err e) ∷ cs) s =
        run_db-handled cs (d.open_db (err e) s).0
        ∙ ap (λ s. handled s ++ opened cs) (l.open-failed e s)
    run_db-handled (shuts ∷ cs) s =
        run_db-handled cs (d.shutdown_db s) ∙ ap (λ l. l ++ opened cs) (l.shutdown-handled s)

    run_db-append : (cs ds : List DbCall) (s : S) → run_db (cs ++ ds) s ≡ run_db ds (run_db cs s)
    run_db-append [] ds s = refl
    run_db-append (c ∷ cs) ds s = run_db-append cs ds (step_db c s)

    pub run_db-quiet : (cs : List DbCall) (s : S) → IsQuiet cs → run_db cs s ≡ s
    run_db-quiet [] s q = refl
    run_db-quiet (opens (ok r) ∷ cs) s q = absurd q
    run_db-quiet (opens (err e) ∷ cs) s q =
        run_db-quiet cs (d.open_db (err e) s).0 q ∙ l.open-failed e s
    run_db-quiet (shuts ∷ cs) s q = absurd q

    pub run_db-current_opened :
        (before after : List DbCall) (r : Reader) (s : S)
        → IsQuiet after
        → d.current (run_db (before ++ opens (ok r) ∷ after) s) ≡ some r
    run_db-current_opened before after r s q =
        ap (d.current) (
          run_db-append before (opens (ok r) ∷ after) s
          ∙ run_db-quiet after (d.open_db (ok r) (run_db before s)).0 q)
        ∙ l.open-current r (run_db before s)

    pub run_db-current_shut :
        (before after : List DbCall) (s : S)
        → IsQuiet after
        → d.current (run_db (before ++ shuts ∷ after) s) ≡ none
    run_db-current_shut before after s q =
        ap (d.current) (
          run_db-append before (shuts ∷ after) s
          ∙ run_db-quiet after (d.shutdown_db (run_db before s)) q)
        ∙ l.shutdown-current (run_db before s)
