-- ===== src/Fs/Cleanup.antt =====
-- What Cleanup of topolib/fs.go removes, and what it spares.
use topographer.Base.{
  String, ◌≡◌, refl, sym, ap, ◌∙◌, ◌⊎◌, inl, inr, true, Bool-cases, Option, Option-cases, none,
  List, [], ◌∷◌, string_eq, eq_iff, arith, All, All-map,
}
use topographer.Base.Assoc.{lookup}
use topographer.Errors.{Err, Result, ok, err, Result-cases}
use topographer.Fs.{Dir, cleanup, remove, remove_all, others, is_one_of}
use topographer.Fs.Update.{lookup-remove}
use topographer.Fs.Updating.{StartEnv}

-- Every name but that of the target is gone from the directory.
abbrev pub IsCleaned : List String → String → Dir → Type 0
IsCleaned names target d = All (λ (k : String). (k ≡ target) ⊎ (lookup k d ≡ none)) names

module _ (fails : String → Option Err) where
  remove_all-absent :
      (names : List String) (k : String) (d : Dir)
      → lookup k d ≡ none
      → lookup k (remove_all fails names d).0 ≡ none
  unfolding remove_all
  remove_all-absent [] k d h = h
  remove_all-absent (name ∷ names) k d h =
      ground (arith, remove_all-absent names k (remove name d), lookup-remove name k d)

  remove_all-spares :
      (names : List String) (target : String) (d : Dir)
      → lookup target (remove_all fails (others (target ∷ []) names) d).0 ≡ lookup target d
  unfolding remove_all
  remove_all-spares [] target d = refl
  remove_all-spares (k ∷ names) target d = ground (
    arith,
    remove_all-spares names target d,
    remove_all-spares names target (remove k d),
    lookup-remove k target d,
    eq_iff k target,
    eq_iff target k,
  )

  remove_all-gone :
      (saved names : List String) (d d' : Dir)
      → remove_all fails (others saved names) d ≡ (d', none)
      → All (λ (k : String). (is_one_of k saved ≡ true) ⊎ (lookup k d' ≡ none)) names
  unfolding remove_all
  remove_all-gone saved [] d d' h = tt
  remove_all-gone saved (k ∷ names) d d' h = elim (Bool-cases (is_one_of k saved)) [
    | inl e ↦ (inl e, remove_all-gone saved names d d' (rw e at h))
    | inr e ↦ elim (Option-cases (fails k)) [
      | inr (x, f) ↦ cc (rw (e, remove_all, f) at h)
      | inl f ↦
          let h' : remove_all fails (others saved names) (remove k d) ≡ (d', none) =
            rw (e, remove_all, f) at h in
          (
            inr (
                ap (λ (r : Dir × Option Err). lookup k r.0) (sym h')
                ∙ remove_all-absent (others saved names) k (remove k d)
                    (ground (arith, lookup-remove k k d, eq_iff k k))),
            remove_all-gone saved names (remove k d) d' h',
          )
    ]
  ]

pub cleanup-IsCleaned :
    (env : StartEnv) (name : String) (d d' : Dir)
    → cleanup env.start_remove_fails env.listed (name ∷ []) d ≡ (d', none)
    → (names : List String) × (env.listed ≡ ok names)
      × IsCleaned names name d'
      × (lookup name d' ≡ lookup name d)
unfolding cleanup
cleanup-IsCleaned env name d d' h = elim (Result-cases env.listed) [
  | inr (e, f) ↦ cc (rw (f, cleanup) at h)
  | inl (names, f) ↦
      let h' : remove_all env.start_remove_fails (others (name ∷ []) names) d ≡ (d', none) =
        rw (f, cleanup) at h in
      (
        names,
        f,
        All-map (λ k. (is_one_of k (name ∷ []) ≡ true) ⊎ (lookup k d' ≡ none))
            (λ k. (k ≡ name) ⊎ (lookup k d' ≡ none)) names (λ k g. only k g)
            (remove_all-gone env.start_remove_fails (name ∷ []) names d d' h'),
        ap (λ (r : Dir × Option Err). lookup name r.0) (sym h')
            ∙ remove_all-spares env.start_remove_fails names name d,
      )
]
  where
    only :
        (k : String)
        → (is_one_of k (name ∷ []) ≡ true) ⊎ (lookup k d' ≡ none)
        → (k ≡ name) ⊎ (lookup k d' ≡ none)
    only k (inr g) = inr g
    only k (inl g) = inl (ground (arith, eq_iff name k))

pub cleanup_full :
    (fails : String → Option Err) (listed : Result (List String)) (d d' : Dir)
    → cleanup fails listed [] d ≡ (d', none)
    → (names : List String) × (listed ≡ ok names)
      × All (λ (k : String). lookup k d' ≡ none) names
      × ((k : String) → lookup k d ≡ none → lookup k d' ≡ none)
unfolding cleanup
cleanup_full fails (err e) d d' h = cc
cleanup_full fails (ok names) d d' h = (
  names,
  refl,
  All-map (λ k. (is_one_of k [] ≡ true) ⊎ (lookup k d' ≡ none)) (λ k. lookup k d' ≡ none) names
      (λ k g. gone k g) (remove_all-gone fails [] names d d' h),
  λ k absent.
      ap (λ (r : Dir × Option Err). lookup k r.0) (sym h)
      ∙ remove_all-absent fails (others [] names) k d absent,
)
  where
    gone : (k : String) → (is_one_of k [] ≡ true) ⊎ (lookup k d' ≡ none) → lookup k d' ≡ none
    gone k (inr g) = g
    gone k (inl g) = cc

-- What is left of the names of the first cleanup stays so.
abbrev pub Shrinks : Dir → Dir → Type 0
Shrinks d d' = (k : String) → lookup k d ≡ none → lookup k d' ≡ none
