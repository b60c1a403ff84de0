-- ===== src/Merge/Names.antt =====
-- The city that resolveIPMergeCity (topolib/topographer.go) names was reported, and has the most
-- votes.
use native.Mathlib.Bridge.{le_prop}
use native.Mathlib.Nat.{ℕ_set}
use mathlib.Core.Logic.{∥∥₁_elim}
use mathlib.Core.List.{Memᴰ, Perm}
use topographer.Base.{
  ℕ, ◌+◌, ◌≤◌, String, ◌≡◌, ◌≢◌, refl, sym, ap, subst, ◌∙◌, ◌⊎◌, inl, inr, false, some, List, [],
  ◌∷◌, nat_eq, string_eq, str_eq, if◌then◌else◌, arith, Bool-cases, Option-cases, eq_iff, All,
}
use topographer.Base.Assoc.{lookup, insert, lookup-insert, get_or_zero}
use topographer.Base.Assoc.Laws.{
  HasDistinctKeys, insert-HasDistinctKeys, lookup_of_visit, visit_of_lookup,
}
use topographer.Structs.{ResolveResultDetail}
use topographer.Merge.{
  get_or_empty, CityCounts, count_city, count_cities, select_city, RangeOrder,
  resolve_ip_merge_city,
}
use topographer.Merge.Cities.{tally, count_cities-tally, select_city-most, select_city-IsPicked}

module _ (dm : String → String) where
  -- A city that some result of `ds` reports, with the sound `k`.
  abbrev IsReported : List ResolveResultDetail → String → String → Type 0
  IsReported ds k n = (d : ResolveResultDetail) × Memᴰ d ds × (d.city ≡ n) × (n ≢ "") × (dm n ≡ k)

  -- `all` are the results of which `m` has seen some.
  record IsNamed (all : List ResolveResultDetail) (m : CityCounts) : Type 0 where
    distinct : HasDistinctKeys m.counters
    named :
        (k : String) (v : ℕ)
        → lookup k m.counters ≡ some v
        → (n : String) × (lookup k m.names ≡ some n)
    reported : (k n : String) → lookup k m.names ≡ some n → IsReported all k n

  report_of :
      (all : List ResolveResultDetail) (m : CityCounts) (d : ResolveResultDetail)
      → Memᴰ d all
      → str_eq d.city "" ≡ false
      → (k n : String) → (lookup k m.names ≡ some n → IsReported all k n)
      → (if str_eq (dm d.city) k then some d.city else lookup k m.names) ≡ some n
      → IsReported all k n
  report_of all m d x given k n old e = elim (Bool-cases (str_eq (dm d.city) k)) [
    | inl same ↦
        let e' : d.city ≡ n = ground arith in
        (
          d,
          x,
          e',
          ground (arith, eq_iff d.city "", eq_iff n ""),
          ap dm (sym e') ∙ (eq_iff _ _).0 same,
        )
    | inr other ↦ old (ground arith)
  ]

  count_city-IsNamed :
      (all : List ResolveResultDetail) (m : CityCounts) (d : ResolveResultDetail)
      → Memᴰ d all
      → IsNamed all m
      → IsNamed all (count_city dm m d)
  unfolding count_city
  count_city-IsNamed all m d x h = elim (Bool-cases (str_eq d.city "")) [
    | inl blank ↦ rw blank h
    | inr given ↦ rw given (record {
      distinct = insert-HasDistinctKeys _ _ m.counters h.distinct;
      named = λ k v e. name_of k v e;
      reported = λ k n e.
          report_of all m d x given k n (h.reported k n)
            (sym (lookup-insert (dm d.city) k d.city m.names) ∙ e);
    })
  ]
    where
      name_of :
          (k : String) (v : ℕ)
          → lookup k
              (insert (dm d.city) (get_or_zero (lookup (dm d.city) m.counters) + 1) m.counters)
            ≡ some v
          → (n : String) × (lookup k (insert (dm d.city) d.city m.names) ≡ some n)
      name_of k v e = elim (Bool-cases (str_eq (dm d.city) k)) [
        | inl same ↦ (d.city, rw (lookup-insert (dm d.city) k d.city m.names, same))
        | inr other ↦
            let old = sym (lookup-insert (dm d.city) k _ m.counters) ∙ e in
            let (n, p) = h.named k v (rw other at old) in
            (n, rw (lookup-insert (dm d.city) k d.city m.names, other) p)
      ]

  count_cities-IsNamed :
      (all : List ResolveResultDetail) (m : CityCounts) (ds : List ResolveResultDetail)
      → ((d : ResolveResultDetail) → Memᴰ d ds → Memᴰ d all)
      → IsNamed all m
      → IsNamed all (count_cities dm m ds)
  unfolding count_cities
  count_cities-IsNamed all m [] sub h = h
  count_cities-IsNamed all m (d ∷ ds) sub h =
      count_cities-IsNamed all (count_city dm m d) ds (λ x p. sub x (Memᴰ.tail p))
        (count_city-IsNamed all m d (sub d (Memᴰ.head refl)) h)

  empty_counts : CityCounts
  empty_counts = record { counters = []; names = [] }

  empty_counts-IsNamed : (all : List ResolveResultDetail) → IsNamed all empty_counts
  unfolding empty_counts lookup
  empty_counts-IsNamed all = record { distinct = tt; named = λ k v e. cc; reported = λ k n e. cc }

  no_city :
      (ds : List ResolveResultDetail)
      → ((k : String) → tally dm k ds ≡ 0)
      → All (λ d. d.city ≡ "") ds
  no_city [] h = tt
  no_city (d ∷ ds) h = (
    ground (arith, eq_iff d.city "", eq_iff (dm d.city) (dm d.city), h (dm d.city)),
    no_city ds (λ k. omega (arith, h k)),
  )

-- The city is empty and no result reports one; or some result reports it, and no sound stands for
-- more of the reports than its own.
abbrev pub IsCityVerdict : (String → String) → List ResolveResultDetail → String → Type 0
IsCityVerdict dm ds city =
    ((city ≡ "") × All (λ d. d.city ≡ "") ds)
    ⊎ ((d : ResolveResultDetail) × Memᴰ d ds
        × (d.city ≡ city)
        × (city ≢ "")
        × ((k : String) → tally dm k ds ≤ tally dm (dm city) ds))

module _ (dm : String → String) (order : RangeOrder) (ds : List ResolveResultDetail)
    (visit : (m : List (String × ℕ)) → Perm (order.counters m) m) where
  counts : CityCounts
  counts = count_cities dm (record { counters = []; names = [] }) ds

  counts-IsNamed : IsNamed dm ds counts
  unfolding counts empty_counts
  counts-IsNamed =
      count_cities-IsNamed dm ds (empty_counts dm) ds (λ d p. p) (empty_counts-IsNamed dm ds)

  counts-tally : (k : String) → get_or_zero (lookup k counts.counters) ≡ tally dm k ds
  unfolding counts lookup
  counts-tally k = omega (arith, count_cities-tally dm (record { counters = []; names = [] }) ds k)

  picked : String × ℕ
  picked = select_city counts.names ("", 0) (order.counters counts.counters)

  tally-most : (k : String) → tally dm k ds ≤ picked.1
  unfolding picked
  tally-most k = elim (Option-cases (lookup k counts.counters)) [
    | inl e ↦ omega (arith, sym (counts-tally k) ∙ ap get_or_zero e)
    | inr (v, e) ↦ rw (sym (counts-tally k) ∙ ap get_or_zero e) (
        ∥∥₁_elim (visit_of_lookup k v _ _ (visit counts.counters) e) le_prop
          (select_city-most counts.names ("", 0) (order.counters counts.counters) k v))
  ]

  picked-IsCityVerdict : IsCityVerdict dm ds picked.0
  unfolding picked
  picked-IsCityVerdict =
      elim (select_city-IsPicked counts.names ("", 0) (order.counters counts.counters)) [
        | inl same ↦ inl (
          ap (λ (x : String × ℕ). x.0) same,
          no_city dm ds (λ k. omega (arith, tally-most k, ap (λ (x : String × ℕ). x.1) same)),
        )
        | inr (k, v, m, e, p) ↦
            let seen =
              lookup_of_visit ℕ_set k v _ _ (counts-IsNamed.distinct) (visit counts.counters) m in
            let (n, named) = counts-IsNamed.named k v seen in
            let (d, x, same, given, sound) = counts-IsNamed.reported k n named in
            let city : picked.0 ≡ n = ap (λ (x : String × ℕ). x.0) e ∙ ap get_or_empty named in
            inr (
              d,
              x,
              same ∙ sym city,
              λ q. given (sym city ∙ q),
              λ j.
                  subst (λ s. tally dm j ds ≤ tally dm s ds) (sym (ap dm city ∙ sound))
                    (omega (
                      arith,
                      tally-most j,
                      ap (λ (x : String × ℕ). x.1) e,
                      ap get_or_zero seen,
                      counts-tally k,
                    )),
            )
      ]

  -- Whatever the order in which the loop visits the map, resolveIPMergeCity names no city if no
  -- result reports one; otherwise a city that some result reports, and no sound has more reports
  -- than the sound of this city.
  pub resolve_ip_merge_city-IsCityVerdict : IsCityVerdict dm ds (resolve_ip_merge_city dm order ds)
  unfolding resolve_ip_merge_city picked counts
  resolve_ip_merge_city-IsCityVerdict = picked-IsCityVerdict
