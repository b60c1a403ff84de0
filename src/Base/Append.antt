-- ===== src/Base/Append.antt =====
-- Texts put together.
use Prim.Native.Char.{Char}
use Prim.Native.String
use Prim.Native.String.{String}
use Prim.Native.String.append
use mathlib.Core.Path.{◌≡◌, ap, sym, ◌∙◌}

pub append_nil : (t : String) → String.◌++◌ "" t ≡ t
append_nil t = λ i. append.nil t i

pub append_cons :
    (c : Char) (s t : String) → String.◌++◌ (String.◌∷◌ c s) t ≡ String.◌∷◌ c (String.◌++◌ s t)
append_cons c s t = λ i. append.cons c s t i

pub append_nil_right : (s : String) → String.◌++◌ s "" ≡ s
append_nil_right String.[] = append_nil ""
append_nil_right (String.◌∷◌ c s) =
    append_cons c s "" ∙ ap (λ t. String.◌∷◌ c t) (append_nil_right s)

pub append_assoc :
    (a b c : String) → String.◌++◌ a (String.◌++◌ b c) ≡ String.◌++◌ (String.◌++◌ a b) c
append_assoc String.[] b c =
    append_nil (String.◌++◌ b c) ∙ ap (λ s. String.◌++◌ s c) (sym (append_nil b))
append_assoc (String.◌∷◌ x a) b c =
    append_cons x a (String.◌++◌ b c)
    ∙ (ap (λ t. String.◌∷◌ x t) (append_assoc a b c)
        ∙ (sym (append_cons x (String.◌++◌ a b) c)
            ∙ ap (λ s. String.◌++◌ s c) (sym (append_cons x a b))))
