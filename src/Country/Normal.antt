-- ===== src/Country/Normal.antt =====
-- NormalizeAlpha2Code of topolib/country_codes.go.
use Prim.Native.Char.{Char, code}
use text.Mathlib.TextEquality.{Char-path}
use topographer.Base.{
  ℕ, ◌-◌, ◌<◌, String, ◌≡◌, refl, ap, ap₂, ◌⊎◌, inl, inr, Bool-cases, ◌&&◌, nat_eq, if◌then◌else◌,
  leb, arith, sym, ◌∙◌, nat_beq, nat_beq_iff,
}
use topographer.Country.{byte_len, to_upper, map_alpha2, normalize_alpha2_code}

-- `a` … `z` are 97 … 122.
abbrev pub ascii_upper : ℕ → ℕ
ascii_upper n = if leb 97 n && leb n 122 then n - 32 else n

-- What unicode.ToUpper is known to do: it is its own repetition, and it is the usual thing on ASCII.
pub record IsUpper (upper : Char → Char) : Type 0 where
  pub idempotent : (c : Char) → upper (upper c) ≡ upper c
  pub ascii : (c : Char) → code c < 128 → code (upper c) ≡ ascii_upper (code c)

map_alpha2_cases :
    (s : String)
    → (map_alpha2 s ≡ "")
      ⊎ (map_alpha2 s ≡ "CS")
      ⊎ (map_alpha2 s ≡ "FR")
      ⊎ (map_alpha2 s ≡ "GB")
      ⊎ (map_alpha2 s ≡ s)
unfolding map_alpha2
map_alpha2_cases s = ground arith

byte_len-map_alpha2 :
    (s : String) → byte_len s ≡ 2 → (map_alpha2 s ≡ "") ⊎ (byte_len (map_alpha2 s) ≡ 2)
byte_len-map_alpha2 s h = elim (map_alpha2_cases s) [
  | inl e ↦ inl e
  | inr (inl e) ↦ inr (ap byte_len e)
  | inr (inr (inl e)) ↦ inr (ap byte_len e)
  | inr (inr (inr (inl e))) ↦ inr (ap byte_len e)
  | inr (inr (inr (inr e))) ↦ inr (ap byte_len e ∙ h)
]

map_alpha2_idempotent : (s : String) → map_alpha2 (map_alpha2 s) ≡ map_alpha2 s
unfolding map_alpha2
map_alpha2_idempotent s = elim (map_alpha2_cases s) [
  | inl e ↦ ap map_alpha2 e ∙ sym e
  | inr (inl e) ↦ ap map_alpha2 e ∙ sym e
  | inr (inr (inl e)) ↦ ap map_alpha2 e ∙ sym e
  | inr (inr (inr (inl e))) ↦ ap map_alpha2 e ∙ sym e
  | inr (inr (inr (inr e))) ↦ ap map_alpha2 e
]

module _ (upper : Char → Char) (u : IsUpper upper) where
  pub to_upper_idempotent : (s : String) → to_upper upper (to_upper upper s) ≡ to_upper upper s
  unfolding to_upper
  to_upper_idempotent String.[] = refl
  to_upper_idempotent (String.◌∷◌ c s) = ap₂ String.◌∷◌ (u.idempotent c) (to_upper_idempotent s)

  upper_fixed : (c : Char) → code c < 97 → upper c ≡ c
  upper_fixed c h = Char-path _ _ (ground (arith, u.ascii c))

  upper_pair :
      (c d : Char)
      → code c < 97
      → code d < 97
      → to_upper upper (String.◌∷◌ c (String.◌∷◌ d String.[]))
        ≡ String.◌∷◌ c (String.◌∷◌ d String.[])
  unfolding to_upper
  upper_pair c d h k = rw (upper_fixed c h, upper_fixed d k)

  upper_nil : to_upper upper "" ≡ ""
  unfolding to_upper
  upper_nil = refl

  -- The codes that the mapping puts in are in upper case.
  map_alpha2-upper :
      (s : String) → to_upper upper s ≡ s → to_upper upper (map_alpha2 s) ≡ map_alpha2 s
  map_alpha2-upper s h = elim (map_alpha2_cases s) [
    | inl e ↦ rw e upper_nil
    | inr (inl e) ↦ rw e (upper_pair "C" "S" (omega arith) (omega arith))
    | inr (inr (inl e)) ↦ rw e (upper_pair "F" "R" (omega arith) (omega arith))
    | inr (inr (inr (inl e))) ↦ rw e (upper_pair "G" "B" (omega arith) (omega arith))
    | inr (inr (inr (inr e))) ↦ rw e h
  ]

  normalize_cases :
      (s : String)
      → let n = normalize_alpha2_code upper s in
        ((n ≡ "") ⊎ (byte_len n ≡ 2)) × (to_upper upper n ≡ n) × (map_alpha2 n ≡ n)
  unfolding normalize_alpha2_code
  normalize_cases s =
      let s' = to_upper upper s in
      elim (Bool-cases (nat_beq (byte_len s') 2)) [
        | inl two ↦ rw two (
          byte_len-map_alpha2 s' ((nat_beq_iff (byte_len s') 2).0 two),
          map_alpha2-upper s' (to_upper_idempotent s),
          map_alpha2_idempotent s',
        )
        | inr other ↦ rw other (inl refl, upper_nil, unfold map_alpha2 in refl)
      ]

  normalize_fixed :
      (n : String)
      → (n ≡ "") ⊎ (byte_len n ≡ 2)
      → to_upper upper n ≡ n
      → map_alpha2 n ≡ n
      → normalize_alpha2_code upper n ≡ n
  unfolding normalize_alpha2_code
  normalize_fixed n (inl e) u m = rw (u, e)
  normalize_fixed n (inr e) u m = rw (u, e) m

  -- A normalised code is empty or has two bytes, and normalising it again changes nothing, if
  -- unicode.ToUpper is idempotent and upper-cases ASCII letters only among ASCII characters.
  pub normalize_idempotent :
      (s : String)
      → let n = normalize_alpha2_code upper s in
        ((n ≡ "") ⊎ (byte_len n ≡ 2)) × (normalize_alpha2_code upper n ≡ n)
  normalize_idempotent s =
      let (size, up, mapped) = normalize_cases s in (size, normalize_fixed _ size up mapped)
