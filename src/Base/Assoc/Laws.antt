-- ===== src/Base/Assoc/Laws.antt =====
-- Association lists with distinct keys: entries and lookups are the same thing, also for a loop
-- that visits the entries in another order.
use topographer.Base.Tests.{Eq, ◌==◌, Bool-cases}
use topographer.Base.Assoc.{lookup, insert, lookup-insert}
use mathlib.Core.Path.{◌≡◌, refl, ◌∙◌, ap}
use mathlib.Core.Logic.{inl, inr, ∥∥₁_elim}
use mathlib.Core.Bool.{false}
use mathlib.Core.List.{List, [], ◌∷◌, Memᴰ, Mem, Perm}
use mathlib.Core.List.Perm
use mathlib.Core.Option.{none, some}
use native.Mathlib.Omega.{arith}

module _ {ℓ κ} {K : Type ℓ} {V : Type κ} ⦃e : Eq K⦄ where
  abbrev pub HasDistinctKeys : List (K × V) → Type κ
  HasDistinctKeys [] = Unit
  HasDistinctKeys ((k, v) ∷ m) = (lookup k m ≡ none) × HasDistinctKeys m

  lookup-insert_ne :
      (k j : K) (v : V) (m : List (K × V))
      → (k == j) ≡ false
      → lookup j m ≡ none
      → lookup j (insert k v m) ≡ none
  lookup-insert_ne k j v m n h = lookup-insert k j v m ∙ rw n h

  pub insert-HasDistinctKeys :
      (k : K) (v : V) (m : List (K × V)) → HasDistinctKeys m → HasDistinctKeys (insert k v m)
  unfolding insert lookup
  insert-HasDistinctKeys k v [] h = (refl, tt)
  insert-HasDistinctKeys k v ((j, w) ∷ m) h = elim (Bool-cases (j == k)) [
    | inl same ↦ rw same (rw ((e.equal_iff j k).0 same) at h.0, h.1)
    | inr other ↦ rw other (
      lookup-insert_ne k j v m (ground (arith, e.equal_iff j k, e.equal_iff k j)) h.0,
      insert-HasDistinctKeys k v m h.1,
    )
  ]

  pub lookup_of_mem :
      (k : K) (v : V) (m : List (K × V)) → HasDistinctKeys m → Memᴰ (k, v) m → lookup k m ≡ some v
  unfolding lookup
  lookup_of_mem k v [] h p = elim p [ ]
  lookup_of_mem k v ((j, w) ∷ m) h (Memᴰ.head q) =
      ground (arith, ap (λ (x : K × V). x.0) q, ap (λ (x : K × V). x.1) q, e.equal_iff j k)
  lookup_of_mem k v ((j, w) ∷ m) h (Memᴰ.tail p) =
      ground (arith, lookup_of_mem k v m h.1 p, e.equal_iff j k)

  pub mem_of_lookup : (k : K) (v : V) (m : List (K × V)) → lookup k m ≡ some v → Memᴰ (k, v) m
  unfolding lookup
  mem_of_lookup k v [] h = cc
  mem_of_lookup k v ((j, w) ∷ m) h = elim (Bool-cases (j == k)) [
    | inl same ↦ Memᴰ.head (ground (arith, (e.equal_iff j k).0 same))
    | inr other ↦ Memᴰ.tail (mem_of_lookup k v m (ground arith))
  ]

  pub lookup_of_visit :
      IsSet V
      → (k : K) (v : V) (m es : List (K × V)) → HasDistinctKeys m
      → Perm es m
      → Memᴰ (k, v) es
      → lookup k m ≡ some v
  lookup_of_visit s k v m es h p x =
      ∥∥₁_elim ((Perm.mem_iff p).0 ∣ x ∣₁) (hlevel s) (lookup_of_mem k v m h)

  pub visit_of_lookup :
      (k : K) (v : V) (m es : List (K × V)) → Perm es m → lookup k m ≡ some v → Mem (k, v) es
  visit_of_lookup k v m es p h = (Perm.mem_iff p).1 ∣ mem_of_lookup k v m h ∣₁
