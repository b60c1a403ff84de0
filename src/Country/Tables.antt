-- ===== src/Country/Tables.antt =====
-- The tables of topolib/country_codes.go after `init`.
use Prim.Native.Char.{Char}
use topographer.Base.{
  ℕ, zero, suc, ◌-◌, ◌≤◌, ◌<◌, String, ◌≡◌, ◌≢◌, refl, subst, ◌⊎◌, inl, inr, true, Bool-cases, none,
  some, Option-cases, List, [], ◌∷◌, ◌++◌, ◌%◌, ◌^◌, ◌==◌, string_eq, arith, eq_iff, length,
  get_elem?, get_elem?-concat, get_elem?-lt, length-append,
}
use mathlib.Core.List.{Memᴰ}
use topographer.Base.Assoc.{lookup, insert, lookup-insert}
use topographer.Country.{
  CodeTables, empty_tables, known, string_of, normalize_alpha2_code, alpha2_to_country_code,
  enter_code, load, init, to_upper,
}
use topographer.Country.Normal.{IsUpper, normalize_idempotent}

pub record IsConsistent (t : CodeTables) : Type 0 where
  pub first : get_elem? t.cc2string 0 ≡ some ""
  pub named :
      (k : String) (c : ℕ) → lookup k t.string2cc ≡ some c → get_elem? t.cc2string c ≡ some k
  pub coded :
      (k : String) (c : ℕ) → get_elem? t.cc2string c ≡ some k → lookup k t.string2cc ≡ some c

nil_or_cons : (k : String) (c : ℕ) → get_elem? ("" ∷ []) c ≡ some k → (c ≡ 0) × (k ≡ "")
nil_or_cons k zero h = ground arith
nil_or_cons k (suc c) h = cc

empty_tables-IsConsistent : IsConsistent empty_tables
unfolding lookup
empty_tables-IsConsistent = record {
  first = refl;
  named = λ k c e. ground (arith, eq_iff "" k);
  coded = λ k c e. ground (arith, nil_or_cons k c e, eq_iff "" k);
}

module _ (upper : Char → Char) where
  -- A new key under the next number.
  add_code : CodeTables → String → CodeTables
  add_code t k = record {
    cc2string = t.cc2string ++ k ∷ [];
    string2cc = insert k (length t.cc2string % 256) t.string2cc;
  }

  next_number :
      (xs : List String) (k : String) → (length (xs ++ k ∷ []) - 1) % 2 ^ 8 ≡ length xs % 256
  next_number xs k = omega (arith, length-append xs (k ∷ []))

  enter_code-cases :
      (t : CodeTables) (k : String)
      → ((enter_code upper t k ≡ t) × ((k ≡ "") ⊎ ((c : ℕ) × (lookup k t.string2cc ≡ some c))))
        ⊎ ((lookup k t.string2cc ≡ none) × (enter_code upper t k ≡ add_code t k))
  unfolding enter_code add_code
  enter_code-cases t k = elim (Bool-cases (k == "")) [
    | inl blank ↦ rw blank (inl (refl, inl ((eq_iff k "").0 blank)))
    | inr given ↦ rw given (elim (Option-cases (lookup k t.string2cc)) [
      | inl e ↦ inr (e, rw (e, next_number t.cc2string k))
      | inr (c, e) ↦ inl (rw e, inr (c, e))
    ])
  ]

  length-add_code-lt :
      (t : CodeTables) (k : String)
      → length (add_code t k).cc2string ≤ 256
      → length t.cc2string < 256
  unfolding add_code
  length-add_code-lt t k b = omega (arith, length-append t.cc2string (k ∷ []))

  add_code-IsConsistent :
      (t : CodeTables) (k : String)
      → IsConsistent t
      → lookup k t.string2cc ≡ none
      → length t.cc2string < 256
      → IsConsistent (add_code t k)
  unfolding add_code
  add_code-IsConsistent t k v new b =
      let n = length t.cc2string % 256 in
      let below : 0 < length t.cc2string = get_elem?-lt t.cc2string 0 "" v.first in
      record {
        first = ground (arith, get_elem?-concat t.cc2string k 0, v.first);
        named = λ j c e. ground (
          arith,
          lookup-insert k j n t.string2cc,
          get_elem?-concat t.cc2string k c,
          v.named j c,
          get_elem?-lt t.cc2string c j,
          eq_iff k j,
        );
        coded = λ j c e. ground (
          arith,
          lookup-insert k j n t.string2cc,
          get_elem?-concat t.cc2string k c,
          v.coded j c,
          eq_iff k j,
        );
      }

  length-enter_code-le :
      (t : CodeTables) (k : String) → length t.cc2string ≤ length (enter_code upper t k).cc2string
  unfolding enter_code
  length-enter_code-le t k = ground (arith, length-append t.cc2string (k ∷ []))

  length-load-le :
      (t : CodeTables) (ks : List String) → length t.cc2string ≤ length (load upper t ks).cc2string
  unfolding load
  length-load-le t [] = omega arith
  length-load-le t (k ∷ ks) = omega (
    arith,
    length-enter_code-le t (normalize_alpha2_code upper k),
    length-load-le (enter_code upper t (normalize_alpha2_code upper k)) ks,
  )

  enter_code-IsConsistent :
      (t : CodeTables) (k : String)
      → IsConsistent t
      → length (enter_code upper t k).cc2string ≤ 256
      → IsConsistent (enter_code upper t k)
  enter_code-IsConsistent t k v b = elim (enter_code-cases t k) [
    | inl (same, _) ↦ rw same v
    | inr (new, e) ↦ rw e (add_code-IsConsistent t k v new (length-add_code-lt t k (rw e at b)))
  ]

  load-IsConsistent :
      (t : CodeTables) (ks : List String)
      → IsConsistent t
      → length (load upper t ks).cc2string ≤ 256
      → IsConsistent (load upper t ks)
  unfolding load
  load-IsConsistent t [] v b = v
  load-IsConsistent t (k ∷ ks) v b =
      let n = normalize_alpha2_code upper k in
      let grown = length-load-le (enter_code upper t n) ks in
      load-IsConsistent (enter_code upper t n) ks (enter_code-IsConsistent t n v (omega arith)) b

  init-IsConsistent :
      (keys : List String)
      → length (init upper keys).cc2string ≤ 256
      → IsConsistent (init upper keys)
  unfolding init
  init-IsConsistent keys b = load-IsConsistent empty_tables keys empty_tables-IsConsistent b

  -- The key of a country has a number at the end, and keeps it.
  lookup-enter_code :
      (t : CodeTables) (j k : String) (c : ℕ)
      → lookup j t.string2cc ≡ some c
      → lookup j (enter_code upper t k).string2cc ≡ some c
  unfolding add_code
  lookup-enter_code t j k c h = elim (enter_code-cases t k) [
    | inl (same, _) ↦ rw same h
    | inr (new, e) ↦
        rw e (ground (arith, lookup-insert k j (length t.cc2string % 256) t.string2cc, eq_iff k j))
  ]

  lookup-load :
      (t : CodeTables) (ks : List String) (j : String) (c : ℕ)
      → lookup j t.string2cc ≡ some c
      → lookup j (load upper t ks).string2cc ≡ some c
  unfolding load
  lookup-load t [] j c h = h
  lookup-load t (k ∷ ks) j c h =
      let n = normalize_alpha2_code upper k in
      lookup-load (enter_code upper t n) ks j c (lookup-enter_code t j n c h)

  lookup-enter_code_self :
      (t : CodeTables) (k : String)
      → k ≢ ""
      → (c : ℕ) × (lookup k (enter_code upper t k).string2cc ≡ some c)
  unfolding add_code
  lookup-enter_code_self t k n = elim (enter_code-cases t k) [
    | inl (same, inl blank) ↦ absurd (n blank)
    | inl (same, inr (c, e)) ↦ (c, rw same e)
    | inr (new, e) ↦ (
      length t.cc2string % 256,
      rw e (ground (arith, lookup-insert k k (length t.cc2string % 256) t.string2cc, eq_iff k k)),
    )
  ]

  load-entered :
      (t : CodeTables) (ks : List String) (k : String)
      → Memᴰ k ks
      → normalize_alpha2_code upper k ≢ ""
      → (c : ℕ) × (lookup (normalize_alpha2_code upper k) (load upper t ks).string2cc ≡ some c)
  unfolding load
  load-entered t [] k m n = elim m [ ]
  load-entered t (j ∷ ks) k (Memᴰ.head e) n =
      let (c, h) = lookup-enter_code_self t (normalize_alpha2_code upper k) n in
      let moved =
        subst
          (λ x.
            lookup (normalize_alpha2_code upper k)
              (enter_code upper t (normalize_alpha2_code upper x)).string2cc
            ≡ some c)
          e h in
      (c, lookup-load (enter_code upper t (normalize_alpha2_code upper j)) ks _ c moved)
  load-entered t (j ∷ ks) k (Memᴰ.tail m) n =
      load-entered (enter_code upper t (normalize_alpha2_code upper j)) ks k m n

  known_of_named :
      (t : CodeTables) (k : String) (c : ℕ)
      → IsConsistent t
      → k ≢ ""
      → lookup k t.string2cc ≡ some c
      → known c ≡ true
  unfolding known
  known_of_named t k c v n e = ground (arith, v.named k c e, v.first)

  -- The keys of the second table are normalised.
  abbrev IsNormal : CodeTables → Type 0
  IsNormal t =
      (k : String) (c : ℕ) → lookup k t.string2cc ≡ some c → normalize_alpha2_code upper k ≡ k

  empty_tables-IsNormal : IsNormal empty_tables
  unfolding lookup normalize_alpha2_code to_upper
  empty_tables-IsNormal k c h =
      let e : "" ≡ k = ground (arith, eq_iff "" k) in
      subst (λ x. normalize_alpha2_code upper x ≡ x) e refl

  enter_code-IsNormal :
      (t : CodeTables) (k : String)
      → normalize_alpha2_code upper k ≡ k
      → IsNormal t
      → IsNormal (enter_code upper t k)
  unfolding add_code
  enter_code-IsNormal t k fixed v j c = elim (enter_code-cases t k) [
    | inl (same, _) ↦ rw same (v j c)
    | inr (new, e) ↦ rw e λ h.
        ground (arith, lookup-insert k j (length t.cc2string % 256) t.string2cc, eq_iff k j, v j c)
  ]

  load-IsNormal :
      IsUpper upper → (t : CodeTables) (ks : List String) → IsNormal t → IsNormal (load upper t ks)
  unfolding load
  load-IsNormal u t [] v = v
  load-IsNormal u t (k ∷ ks) v =
      let n = normalize_alpha2_code upper k in
      load-IsNormal u (enter_code upper t n) ks
        (enter_code-IsNormal t n (normalize_idempotent upper u k).1 v)

  alpha2-known :
      (t : CodeTables) (s : String)
      → IsConsistent t
      → known (alpha2_to_country_code upper t s) ≡ true
      → string_of t (alpha2_to_country_code upper t s) ≡ some (normalize_alpha2_code upper s)
  unfolding alpha2_to_country_code string_of known
  alpha2-known t s v h =
      let k = normalize_alpha2_code upper s in
      elim (Option-cases (lookup k t.string2cc)) [
        | inl e ↦ ground arith
        | inr (c, e) ↦ rw e (v.named k c e)
      ]

  alpha2-coded :
      (t : CodeTables) (s : String) (c : ℕ)
      → IsConsistent t
      → IsNormal t
      → string_of t c ≡ some s
      → alpha2_to_country_code upper t s ≡ c
  unfolding alpha2_to_country_code string_of
  alpha2-coded t s c v n h = let e = v.coded s c h in rw (n s c e, e)

  -- After `init` over the keys of the countries in any order, if no more than 256 codes are entered
  -- (the empty one included): a code that Alpha2ToCountryCode knows is printed as the normalised
  -- text, and every printed code is mapped back to its number.
  pub alpha2-string_of :
      IsUpper upper
      → (keys : List String) → length (init upper keys).cc2string ≤ 256
      → let t = init upper keys in
        ((s : String)
          → known (alpha2_to_country_code upper t s) ≡ true
          → string_of t (alpha2_to_country_code upper t s) ≡ some (normalize_alpha2_code upper s))
        × ((c : ℕ) (s : String) → string_of t c ≡ some s → alpha2_to_country_code upper t s ≡ c)
  unfolding init
  alpha2-string_of u keys b =
      let v = init-IsConsistent keys b in
      let normal = load-IsNormal u empty_tables keys empty_tables-IsNormal in
      (λ s h. alpha2-known _ s v h, λ c s e. alpha2-coded _ s c v normal e)

  -- Every country in the loop whose normalised key is not empty is known after `init`, whatever
  -- the order of the loop, if no more than 256 codes are entered.
  init-known :
      (keys : List String) (k : String)
      → length (init upper keys).cc2string ≤ 256
      → Memᴰ k keys
      → normalize_alpha2_code upper k ≢ ""
      → known (alpha2_to_country_code upper (init upper keys) k) ≡ true
  unfolding alpha2_to_country_code known init
  init-known keys k b m n =
      let (c, e) = load-entered empty_tables keys k m n in
      rw e (known_of_named _ _ c (init-IsConsistent keys b) n e)
