-- ===== src/Errors.antt =====
-- topolib/errors.go: the sentinel errors, errors.Is on a wrapped chain, and the error that the HTTP
-- handler sends.
use topographer.Base.{
  ℕ, ◌≡◌, refl, ◌⊎◌, inl, inr, String, Bool, true, false, Option, none, some, not, ◌==◌, nat_eq,
  string_eq, if◌then◌else◌,
}
use Prim.Native.String.{◌++◌}

-- `message` is an error of `errors.New` or of a library; `wrap` is `fmt.Errorf("text: %w", err)`.
pub data Err : Type 0 where
  topographer_shutdown context_is_closed circuit_breaker_opened circuit_breaker_ignore : Err
  message : String → Err
  wrap : String → Err → Err

unfoldable pub error_text : Err → String
error_text topographer_shutdown = "topographer instance was shutdown"
error_text context_is_closed = "context is closed"
error_text circuit_breaker_opened = "circuit breaker is opened"
error_text circuit_breaker_ignore = "this error should be ignores by circuit breaker"
error_text (message s) = s
error_text (wrap s e) = s ++ (": " ++ error_text e)

-- `errors.Is(err, ErrCircuitBreakerIgnore)`: the chain of wrapped errors is searched.
abbrev pub is_ignore : Err → Bool
is_ignore circuit_breaker_ignore = true
is_ignore (wrap s e) = is_ignore e
is_ignore _ = false

pub record HttpError : Type 0 where
  pub message : String
  pub err : Option Err
  pub status_code : ℕ

-- The receiver of these methods may be nil.
unfoldable pub get_message : Option HttpError → String
get_message none = ""
get_message (some h) = h.message

unfoldable pub unwrap : Option HttpError → Option Err
unwrap none = none
unwrap (some h) = h.err

abbrev pub text_or_empty : Option Err → String
unfolding error_text
text_or_empty none = ""
text_or_empty (some e) = error_text e

unfoldable pub err_text : Option HttpError → String
unfolding unwrap error_text
err_text h = text_or_empty (unwrap h)

unfoldable pub get_status_code : Option HttpError → ℕ
get_status_code none = 500
get_status_code (some h) = if not (h.status_code == 0) then h.status_code else 500

-- The `switch` of `Error`: the context is put behind the message.
error_of : String → Option Err → String
unfolding error_text
error_of m none = m
error_of m (some e) = if not (m == "") then m ++ (": " ++ error_text e) else error_text e

unfoldable pub error : Option HttpError → String
unfolding error_of
error none = ""
error (some h) = error_of h.message h.err

-- jsonHTTPError: `{"error": {"message": …, "context": …}}`.
pub record JsonHttpError : Type 0 where
  pub message : String
  pub context : String

unfoldable pub marshal_json : Option HttpError → JsonHttpError
unfolding get_message err_text
marshal_json h = record { message = get_message h; context = err_text h }

-- A value, or the error beside which the source returns nothing of use.
pub data Result {ℓ} (A : Type ℓ) : Type ℓ where
  ok : A → Result A
  err : Err → Result A

infixl 5 ◌>>=◌
abbrev pub ◌>>=◌ {ℓ κ} : {A : Type ℓ} {B : Type κ} → Result A → (A → Result B) → Result B
ok a >>= f = f a
err e >>= f = err e

-- `if err != nil { return fmt.Errorf("text: %w", err) }`.
abbrev pub context {ℓ} : {A : Type ℓ} → String → Result A → Result A
context s (ok a) = ok a
context s (err e) = err (wrap s e)

-- Inversion of a successful bind.
pub >>=-eq-ok {ℓ κ} :
    {A : Type ℓ} {B : Type κ} {y : B} (r : Result A) (next : A → Result B)
    → (r >>= next) ≡ ok y
    → (x : A) × (r ≡ ok x) × (next x ≡ ok y)
>>=-eq-ok (err e) next h = cc
>>=-eq-ok (ok x) next h = (x, refl, h)

pub Result-cases {ℓ} :
    {A : Type ℓ} (r : Result A) → ((a : A) × (r ≡ ok a)) ⊎ ((e : Err) × (r ≡ err e))
Result-cases (ok a) = inl (a, refl)
Result-cases (err e) = inr (e, refl)

pub ok-injective {ℓ} : {A : Type ℓ} {x y : A} → ok x ≡ ok y → x ≡ y
ok-injective h = cc
