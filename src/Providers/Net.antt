-- ===== src/Providers/Net.antt =====
-- What the providers use of the packages net, encoding/binary and strconv.
use Prim.Native.Char.{code}
use Prim.Native.String
use topographer.Base.{
  ℕ, ◌+◌, ◌-◌, ◌*◌, ◌/◌, ◌%◌, ◌^◌, ◌<◌, ◌≡◌, String, Option, none, some, [], ◌∷◌, ◌&&◌, ◌==◌,
  string_eq, nat_eq, ltb, leb, if◌then◌else◌, arith, length,
}
use topographer.Base.Time.{ℤ, pos, negsuc}
use topographer.Errors.{Err, message, Result, ok, err}
use topographer.Structs.{Ip, ip_eq, v4_prefix}

abbrev pub drop_prefix : Ip → Ip → Option Ip
drop_prefix [] ip = some ip
drop_prefix (p ∷ ps) [] = none
drop_prefix (p ∷ ps) (b ∷ bs) = let rest = drop_prefix ps bs in if p == b then rest else none

-- `IP.To4`; nil is `none`.
unfoldable pub to4 : Ip → Option Ip
to4 ip =
    if length ip == 4 then some ip else if length ip == 16 then drop_prefix v4_prefix ip else none

-- `binary.BigEndian.PutUint32`.
unfoldable pub put_uint32 : ℕ → Ip
put_uint32 n = n / 2 ^ 24 % 256 ∷ n / 2 ^ 16 % 256 ∷ n / 2 ^ 8 % 256 ∷ n % 256 ∷ []

unfoldable pub be_from : ℕ → Ip → ℕ
be_from n [] = n
be_from n (b ∷ bs) = be_from (n * 256 + b) bs

-- `binary.BigEndian.Uint32` of four bytes.
unfoldable pub be_uint32 : Ip → ℕ
unfolding be_from
be_uint32 ip = be_from 0 ip

pub be_uint32-put : (n : ℕ) → n < 2 ^ 32 → be_uint32 (put_uint32 n) ≡ n
unfolding be_uint32 put_uint32 be_from
be_uint32-put n h = omega arith

-- `uint32(n)` of an int.
unfoldable pub to_uint32 : ℤ → ℕ
to_uint32 (pos n) = n % 2 ^ 32
to_uint32 (negsuc n) = 2 ^ 32 - 1 - n % 2 ^ 32

pub to_uint32-lt : (n : ℤ) → to_uint32 n < 2 ^ 32
unfolding to_uint32
to_uint32-lt (pos n) = omega arith
to_uint32-lt (negsuc n) = omega arith

-- The digits of a decimal number, behind the digits that stand for `n`.
abbrev pub digits : ℕ → String → Option ℕ
digits n String.[] = some n
digits n (String.◌∷◌ c s) =
    let rest = digits (n * 10 + (code c - 48)) s in
    if leb 48 (code c) && leb (code c) 57 then rest else none

abbrev invalid : String → Err
invalid s = message (String.◌++◌ "strconv.Atoi: parsing \"" (String.◌++◌ s "\": invalid syntax"))

abbrev out_of_range : String → Err
out_of_range s =
    message (String.◌++◌ "strconv.Atoi: parsing \"" (String.◌++◌ s "\": value out of range"))

abbrev pub number : String → Option ℕ
number String.[] = none
number (String.◌∷◌ c rest) = digits 0 (String.◌∷◌ c rest)

abbrev pub positive : String → Option ℕ → Result ℤ
positive s none = err (invalid s)
positive s (some n) = if ltb n (2 ^ 63) then ok (pos n) else err (out_of_range s)

abbrev negative : String → Option ℕ → Result ℤ
negative s none = err (invalid s)
negative s (some n) =
    if n == 0
    then ok (pos 0)
    else if leb n (2 ^ 63)
    then ok (negsuc (n - 1))
    else err (out_of_range s)

-- `strconv.Atoi`: an optional sign, and decimal digits, in the range of an int64.
unfoldable pub atoi : String → Result ℤ
atoi String.[] = err (invalid "")
atoi (String.◌∷◌ c s) =
    let whole = String.◌∷◌ c s in
    if code c == 45
    then negative whole (number s)
    else if code c == 43
    then positive whole (number s)
    else positive whole (number whole)
