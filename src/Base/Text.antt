-- ===== src/Base/Text.antt =====
-- What the sources use of Go's package strings, on native strings.
use Prim.Native.Char.{code}
use Prim.Native.String.{String}
use Prim.Native.Nat.{ℕ}
use mathlib.Core.Path.{◌≡◌, refl}
use mathlib.Core.Bool.{Bool, true, false, ◌&&◌, ◌||◌}
use topographer.Base.Tests.{ltb, nat_beq, ◌==◌, string_eq, if◌then◌else◌}
use native.Mathlib.Omega.{arith}

-- strings.Trim(s, c) for a cutset of one character, given by its code.
pub trim_left : ℕ → String → String
trim_left c String.[] = ""
trim_left c (String.◌∷◌ a s) =
    let rest = trim_left c s in if nat_beq (code a) c then rest else String.◌∷◌ a s

pub trim_right : ℕ → String → String
trim_right c String.[] = ""
trim_right c (String.◌∷◌ a s) =
    let rest = trim_right c s in if rest == "" && nat_beq (code a) c then "" else String.◌∷◌ a rest

unfoldable pub trim : ℕ → String → String
unfolding trim_left trim_right
trim c s = trim_right c (trim_left c s)

unfoldable pub has_prefix : String → String → Bool
has_prefix s String.[] = true
has_prefix String.[] (String.◌∷◌ b t) = false
has_prefix (String.◌∷◌ a s) (String.◌∷◌ b t) = nat_beq (code a) (code b) && has_prefix s t

-- strings.Contains.
unfoldable pub contains : String → String → Bool
unfolding has_prefix
contains String.[] t = has_prefix "" t
contains (String.◌∷◌ a s) t = has_prefix (String.◌∷◌ a s) t || contains s t

-- Go's `<` on strings: by bytes, which for UTF-8 is by characters.
unfoldable pub string_ltb : String → String → Bool
string_ltb s String.[] = false
string_ltb String.[] (String.◌∷◌ b t) = true
string_ltb (String.◌∷◌ a s) (String.◌∷◌ b t) =
    ltb (code a) (code b) || (nat_beq (code a) (code b) && string_ltb s t)

pub string_ltb_asymm : (s t : String) → string_ltb s t ≡ true → string_ltb t s ≡ false
unfolding string_ltb
string_ltb_asymm s String.[] h = ground arith
string_ltb_asymm String.[] (String.◌∷◌ b t) h = refl
string_ltb_asymm (String.◌∷◌ a s) (String.◌∷◌ b t) h = ground (arith, string_ltb_asymm s t)
