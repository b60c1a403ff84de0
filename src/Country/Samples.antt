-- ===== src/Country/Samples.antt =====
-- Codes of topolib/country_codes.go on small tables, with an ASCII upper-casing.
use Prim.Native.Char.{Char, code}
use Prim.Native.String.{char_at}
use topographer.Base.{
  ℕ, zero, suc, ◌+◌, ◌-◌, ◌<◌, String, ◌≡◌, refl, Bool, true, false, ◌&&◌, Bool-cases, inl, inr,
  some, List, [], ◌∷◌, arith, nat_beq, nat_beq_iff, leb, if◌then◌else◌,
}
use topographer.Country.{
  known, string_of, map_alpha2, to_upper, normalize_alpha2_code, alpha2_to_country_code, load,
  enter_code, init,
}
use topographer.Country.Normal.{IsUpper, ascii_upper}
use topographer.Country.Tables.{alpha2-string_of}
use topographer.Base.Assoc.{lookup, insert}

abbrev is_lower : ℕ → Bool
is_lower n = leb 97 n && leb n 122

ascii : Char → Char
ascii c = if is_lower (code c) then char_at "ABCDEFGHIJKLMNOPQRSTUVWXYZ" (code c - 97) else c

-- The test holds of each of the numbers under the bound.
holds_under : (ℕ → Bool) → ℕ → Bool
holds_under test zero = true
holds_under test (suc bound) = holds_under test bound && test bound

holds_under_lem :
    (test : ℕ → Bool) (bound : ℕ)
    → holds_under test bound ≡ true
    → (i : ℕ) → i < bound
    → test i ≡ true
unfolding holds_under
holds_under_lem test zero h i below = absurd (omega arith)
holds_under_lem test (suc bound) h i below = elim (Bool-cases (holds_under test bound)) [
  | inl earlier ↦ ground (arith, holds_under_lem test bound earlier i)
  | inr other ↦ ground arith
]

letter_table :
    holds_under (λ n. nat_beq (code (char_at "ABCDEFGHIJKLMNOPQRSTUVWXYZ" n)) (n + 65)) 26 ≡ true
unfolding holds_under
letter_table = refl

letter : (n : ℕ) → n < 26 → code (char_at "ABCDEFGHIJKLMNOPQRSTUVWXYZ" n) ≡ n + 65
letter n h = (nat_beq_iff _ _).0 (holds_under_lem _ 26 letter_table n h)

ascii_code : (c : Char) → code (ascii c) ≡ ascii_upper (code c)
unfolding ascii
ascii_code c = elim (Bool-cases (is_lower (code c))) [
  | inl low ↦ rw low (ground (arith, letter (code c - 97)))
  | inr other ↦ rw other refl
]

ascii_fixed : (c : Char) → is_lower (code c) ≡ false → ascii c ≡ c
unfolding ascii
ascii_fixed c h = rw h refl

not_lower : (n : ℕ) → is_lower (ascii_upper n) ≡ false
not_lower n = ground arith

ascii_twice : (c : Char) → ascii (ascii c) ≡ ascii c
ascii_twice c = ascii_fixed (ascii c) (rw (ascii_code c) (not_lower (code c)))

ascii-IsUpper : IsUpper ascii
ascii-IsUpper = record { idempotent = ascii_twice; ascii = λ c _. ascii_code c }

normalize_tests :
    (normalize_alpha2_code ascii "us" ≡ "US")
    × (normalize_alpha2_code ascii "yu" ≡ "CS")
    × (normalize_alpha2_code ascii "Uk" ≡ "GB")
    × (normalize_alpha2_code ascii "zz" ≡ "")
    × (normalize_alpha2_code ascii "usa" ≡ "")
    × (normalize_alpha2_code ascii "é" ≡ "é")
unfolding normalize_alpha2_code to_upper map_alpha2 ascii
normalize_tests = (refl, refl, refl, refl, refl, refl)

-- Two keys that are one country once normalised, and one that is none.
abbrev keys : List String
keys = "US" ∷ "yu" ∷ "EU" ∷ "CS" ∷ "RU" ∷ []

program : Unit {0}
unfolding init load enter_code normalize_alpha2_code alpha2_to_country_code to_upper map_alpha2
    ascii lookup insert string_of known
program = tt

init_tests :
    ((init ascii keys).cc2string ≡ "" ∷ "US" ∷ "CS" ∷ "RU" ∷ [])
    × (alpha2_to_country_code ascii (init ascii keys) "ru" ≡ 3)
    × (alpha2_to_country_code ascii (init ascii keys) "de" ≡ 0)
unfolding program
init_tests = (refl, refl, refl)

alpha2-string_of_example :
    ((s : String)
      → known (alpha2_to_country_code ascii (init ascii keys) s) ≡ true
      → string_of (init ascii keys) (alpha2_to_country_code ascii (init ascii keys) s)
        ≡ some (normalize_alpha2_code ascii s))
    × ((c : ℕ) (s : String)
        → string_of (init ascii keys) c ≡ some s
        → alpha2_to_country_code ascii (init ascii keys) s ≡ c)
unfolding program
alpha2-string_of_example = alpha2-string_of ascii ascii-IsUpper keys (omega arith)
