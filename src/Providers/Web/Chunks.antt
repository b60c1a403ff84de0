-- ===== src/Providers/Web/Chunks.antt =====
-- strings.SplitN of providers/ip2c.go against the text that the parts make up.
use Prim.Native.Char.{Char, code}
use Prim.Native.String
use text.Mathlib.TextEquality.{Char-path}
use topographer.Base.{
  ◌≡◌, ◌↔◌, refl, sym, subst, ap, ap₂, ◌∙◌, inl, inr, String, true, false, Bool-cases, Option, none,
  some, Option-cases, [], ◌∷◌, nat_beq, arith,
}
use topographer.Base.Append.{append_nil, append_cons}
use topographer.Providers.Web.{cut, longer, split_n}

-- The text has no semicolon.
abbrev pub IsFree : String → Type 0
IsFree String.[] = Unit
IsFree (String.◌∷◌ c s) = (nat_beq (code c) 59 ≡ false) × IsFree s

-- Two parts with a semicolon between them.
abbrev pub joined : String → String → String
joined a b = String.◌++◌ a (String.◌∷◌ ";" b)

some-injective {ℓ} : {A : Type ℓ} {x y : A} → some x ≡ some y → x ≡ y
some-injective h = cc

is_semicolon : (c : Char) → nat_beq (code c) 59 ≡ true → c ≡ ";"
is_semicolon c e = Char-path c ";" (ground (arith, e))

cut-longer :
    (c : Char) (o : Option (String × String)) (a b : String)
    → longer c o ≡ some (a, b)
    → (a' : String) × (o ≡ some (a', b)) × (a ≡ String.◌∷◌ c a')
cut-longer c none a b h = cc
cut-longer c (some (x, y)) a b h =
    let e : (String.◌∷◌ c x, y) ≡ (a, b) = some-injective h in
    (
      x,
      ap (λ y. some (x, y)) (ap (λ (p : String × String). p.1) e),
      sym (ap (λ (p : String × String). p.0) e),
    )

pub cut-joined_of_some : (s a b : String) → cut 59 s ≡ some (a, b) → IsFree a × (s ≡ joined a b)
unfolding cut
cut-joined_of_some String.[] a b h = cc
cut-joined_of_some (String.◌∷◌ c s) a b h = elim (Bool-cases (nat_beq (code c) 59)) [
  | inl e ↦
      let q : ("", s) ≡ (a, b) = some-injective (rw e at h) in
      let none_before : "" ≡ a = ap (λ (p : String × String). p.0) q in
      (
        subst IsFree none_before tt,
        subst (λ a. String.◌∷◌ c s ≡ joined a b) none_before
            (ap₂ (λ c s. String.◌∷◌ c s) (is_semicolon c e) (ap (λ (p : String × String). p.1) q)
              ∙ sym (append_nil _)),
      )
  | inr e ↦
      let (a', cut_later, longer_by) = cut-longer c (cut 59 s) a b (rw e at h) in
      let (free, whole) = cut-joined_of_some s a' b cut_later in
      (
        subst IsFree (sym longer_by) (e, free),
        ap (λ s. String.◌∷◌ c s) whole
            ∙ (sym (append_cons c a' _) ∙ ap (λ a. joined a b) (sym longer_by)),
      )
]

pub cut-joined : (a b : String) → IsFree a → cut 59 (joined a b) ≡ some (a, b)
unfolding cut
cut-joined String.[] b h = rw (append_nil (String.◌∷◌ ";" b)) refl
cut-joined (String.◌∷◌ c a) b h =
    rw (append_cons c a (String.◌∷◌ ";" b), h.0, cut-joined a b h.1) refl

-- Three parts, the first two without a semicolon.
abbrev pub IsChunks : String → String → String → String → Type 0
IsChunks body a b rest = IsFree a × IsFree b × (body ≡ joined a (joined b rest))

IsChunks-of_split :
    (body a b rest : String) → split_n 3 59 body ≡ a ∷ b ∷ rest ∷ [] → IsChunks body a b rest
unfolding split_n
IsChunks-of_split body a b rest h = elim (Option-cases (cut 59 body)) [
  | inl e ↦ absurd (one_chunk (rw (split_n, e) at h))
  | inr (p, e) ↦ elim (Option-cases (cut 59 p.1)) [
    | inl f ↦ absurd (two_chunks (rw (split_n, e, f) at h))
    | inr (q, f) ↦
        let three : p.0 ∷ q.0 ∷ q.1 ∷ [] ≡ a ∷ b ∷ rest ∷ [] = rw (split_n, e, f) at h in
        let (first, second, third) = parts_of three in
        let (free_a, whole) = cut-joined_of_some body p.0 p.1 e in
        let (free_b, tail) = cut-joined_of_some p.1 q.0 q.1 f in
        (
          subst IsFree first free_a,
          subst IsFree second free_b,
          whole ∙ ap₂ joined first (tail ∙ ap₂ joined second third),
        )
  ]
]
  where
    one_chunk : {a b c d : String} → a ∷ [] ≡ b ∷ c ∷ d ∷ [] → ⊥
    one_chunk h = cc

    two_chunks : {a e b c d : String} → a ∷ e ∷ [] ≡ b ∷ c ∷ d ∷ [] → ⊥
    two_chunks h = cc

    parts_of :
        {a b c d e f : String} → a ∷ b ∷ c ∷ [] ≡ d ∷ e ∷ f ∷ [] → (a ≡ d) × (b ≡ e) × (c ≡ f)
    parts_of h = (cc, cc, cc)

pub split_n-IsChunks :
    (body a b rest : String) → (split_n 3 59 body ≡ a ∷ b ∷ rest ∷ []) ↔ IsChunks body a b rest
unfolding split_n
split_n-IsChunks body a b rest = (
  IsChunks-of_split body a b rest,
  λ (f, g, e). rw (e, split_n, cut-joined a (joined b rest) f, cut-joined b rest g) refl,
)
