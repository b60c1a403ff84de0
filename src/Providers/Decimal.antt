-- ===== src/Providers/Decimal.antt =====
-- `strconv.Itoa` of a number, which the web services of providers/ use, and what `strconv.Atoi` makes of it.
use Prim.Native.Char.{Char, code}
use topographer.Base.{
  ℕ, zero, suc, ◌+◌, ◌*◌, ◌/◌, ◌%◌, ◌^◌, ◌<◌, ◌≤◌, ◌≡◌, refl, ap, ◌∙◌, String, true, Bool-cases,
  inl, inr, ◌&&◌, ◌==◌, nat_eq, leb, if◌then◌else◌, arith,
}
use topographer.Base.Time.{pos}
use topographer.Errors.{ok}
use topographer.Providers.Net.{digits, positive, atoi}

-- The digit of a number below ten.
abbrev digit : ℕ → Char
digit n =
    if n == 0
    then "0"
    else if n == 1
    then "1"
    else if n == 2
    then "2"
    else if n == 3
    then "3"
    else if n == 4
    then "4"
    else if n == 5
    then "5"
    else if n == 6
    then "6"
    else if n == 7
    then "7"
    else if n == 8
    then "8"
    else "9"

-- The digits of `n` before those of `s`, in at most as many steps as the first argument.
decimal : ℕ → ℕ → String → String
decimal zero n s = s
decimal (suc fuel) n s =
    let more = decimal fuel (n / 10) (String.◌∷◌ (digit (n % 10)) s) in
    if n / 10 == 0 then String.◌∷◌ (digit (n % 10)) s else more

unfoldable pub itoa : ℕ → String
unfolding decimal
itoa n = decimal 20 n ""

code-digit : (n : ℕ) → n < 10 → code (digit n) ≡ 48 + n
code-digit zero h = refl
code-digit (suc zero) h = refl
code-digit (suc (suc zero)) h = refl
code-digit (suc (suc (suc zero))) h = refl
code-digit (suc (suc (suc (suc zero)))) h = refl
code-digit (suc (suc (suc (suc (suc zero))))) h = refl
code-digit (suc (suc (suc (suc (suc (suc zero)))))) h = refl
code-digit (suc (suc (suc (suc (suc (suc (suc zero))))))) h = refl
code-digit (suc (suc (suc (suc (suc (suc (suc (suc zero)))))))) h = refl
code-digit (suc (suc (suc (suc (suc (suc (suc (suc (suc zero))))))))) h = refl
code-digit (suc (suc (suc (suc (suc (suc (suc (suc (suc (suc n)))))))))) h = absurd (omega arith)

is_digit : (n : ℕ) → n < 10 → (leb 48 (48 + n) && leb (48 + n) 57) ≡ true
is_digit n h = ground arith

digits-digit :
    (m n : ℕ) (s : String) → n < 10 → digits m (String.◌∷◌ (digit n) s) ≡ digits (m * 10 + n) s
digits-digit m n s h =
    rw (code-digit n h, is_digit n h) (ap (λ k. digits (m * 10 + k) s) (omega arith))

digits-decimal :
    (fuel n : ℕ) (s : String) → n < 10 ^ fuel → digits 0 (decimal fuel n s) ≡ digits n s
unfolding decimal
digits-decimal zero n s h = ap (λ k. digits k s) (omega arith)
digits-decimal (suc fuel) n s h = elim (Bool-cases (n / 10 == 0)) [
  | inl e ↦
      rw e (digits-digit 0 (n % 10) s (omega arith) ∙ ap (λ k. digits k s) (ground (arith, e)))
  | inr e ↦ rw e (
      digits-decimal fuel (n / 10) (String.◌∷◌ (digit (n % 10)) s) (omega arith)
      ∙ (digits-digit (n / 10) (n % 10) s (omega arith) ∙ ap (λ k. digits k s) (omega arith)))
]

-- The text begins with a character that is no sign.
abbrev Starts : String → Type 0
Starts String.[] = ⊥
Starts (String.◌∷◌ c s) = 48 ≤ code c

digit-Starts : (n : ℕ) (s : String) → Starts (String.◌∷◌ (digit (n % 10)) s)
digit-Starts n s = rw (code-digit (n % 10) (omega arith)) (omega arith)

decimal-Starts : (fuel n : ℕ) (s : String) → Starts s → Starts (decimal fuel n s)
unfolding decimal
decimal-Starts zero n s h = h
decimal-Starts (suc fuel) n s h = elim (Bool-cases (n / 10 == 0)) [
  | inl e ↦ rw e (digit-Starts n s)
  | inr e ↦ rw e (decimal-Starts fuel (n / 10) _ (digit-Starts n s))
]

itoa-Starts : (n : ℕ) → Starts (itoa n)
unfolding itoa decimal
itoa-Starts n = elim (Bool-cases (n / 10 == 0)) [
  | inl e ↦ rw e (digit-Starts n "")
  | inr e ↦ rw e (decimal-Starts 19 (n / 10) _ (digit-Starts n ""))
]

atoi-Starts : (s : String) → Starts s → atoi s ≡ positive s (digits 0 s)
unfolding atoi
atoi-Starts String.[] h = absurd h
atoi-Starts (String.◌∷◌ c s) h = ground arith

-- Atoi reads what Itoa writes.
pub atoi-itoa : (n : ℕ) → n < 2 ^ 63 → atoi (itoa n) ≡ ok (pos n)
unfolding itoa
atoi-itoa n h =
    atoi-Starts (itoa n) (itoa-Starts n) ∙ rw (digits-decimal 20 n "" (omega arith)) (ground arith)
