-- ===== src/Base/Assoc.antt =====
-- Go maps as association lists: a missing key reads as `none`, a write replaces or appends, so
-- that the keys stay distinct. The order of a `range` loop over a map is not this order: a
-- function that loops takes the entries as an argument.
pub mod Laws
use topographer.Base.Tests.{Eq, ◌==◌, if◌then◌else◌}
use Prim.Native.Nat.{ℕ}
use mathlib.Core.Path.{◌≡◌, refl}
use mathlib.Core.List.{List, [], ◌∷◌}
use mathlib.Core.Option.{Option, none, some}
use native.Mathlib.Omega.{arith}

module _ {ℓ κ} {K : Type ℓ} {V : Type κ} ⦃e : Eq K⦄ where
  unfoldable pub lookup : K → List (K × V) → Option V
  lookup key [] = none
  lookup key ((k, v) ∷ entries) = if k == key then some v else lookup key entries

  unfoldable pub insert : K → V → List (K × V) → List (K × V)
  insert key v [] = (key, v) ∷ []
  insert key v ((k, old) ∷ entries) =
      if k == key then (key, v) ∷ entries else (k, old) ∷ insert key v entries

  pub lookup-insert :
      (written read : K) (v : V) (entries : List (K × V))
      → lookup read (insert written v entries)
        ≡ (if written == read then some v else lookup read entries)
  unfolding lookup insert
  lookup-insert written read v [] = refl
  lookup-insert written read v ((k, old) ∷ entries) = ground (
    arith,
    lookup-insert written read v entries,
    e.equal_iff k read,
    e.equal_iff k written,
    e.equal_iff written read,
  )

-- A read of a map of numbers: a missing key gives the zero value.
abbrev pub get_or_zero : Option ℕ → ℕ
get_or_zero none = 0
get_or_zero (some n) = n
