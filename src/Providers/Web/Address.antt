-- ===== src/Providers/Web/Address.antt =====
-- The number by which providers/ip2c.go asks for an address.
use topographer.Base.{
  String, ℕ, ◌+◌, ◌^◌, ◌<◌, ◌≡◌, refl, sym, subst, ap, ◌∙◌, none, some, Bool-cases, inl, inr, [],
  ◌∷◌, length, All, arith, ◌==◌, nat_eq,
}
use topographer.Base.Time.{pos}
use topographer.Errors.{ok}
use topographer.Structs.{Ip, v4_prefix}
use topographer.Providers.Net.{to4, drop_prefix, put_uint32, be_uint32, be_from, atoi}
use topographer.Providers.Web.{ip2c_query}
use topographer.Providers.Decimal.{itoa, atoi-itoa}

abbrev pub IsBytes : Ip → Type 0
IsBytes ip = All (λ b. b < 256) ip

-- A text is the number of a 4-byte address: Atoi reads it, as a number of 32 bits, and PutUint32 gives
-- the address back.
abbrev pub IsNumberOf : String → Ip → Type 0
IsNumberOf s ip4 = (n : ℕ) × (n < 2 ^ 32) × (atoi s ≡ ok (pos n)) × (put_uint32 n ≡ ip4)

some-injective : {x y : Ip} → some x ≡ some y → x ≡ y
some-injective h = cc

not_some : {x : Ip} → none ≡ some x → ⊥
not_some h = cc

drop_prefix-IsBytes :
    (ps ip ip4 : Ip)
    → IsBytes ip
    → drop_prefix ps ip ≡ some ip4
    → IsBytes ip4 × (length ip ≡ length ps + length ip4)
drop_prefix-IsBytes [] ip ip4 h e =
    let q : ip ≡ ip4 = some-injective e in (subst IsBytes q h, ground (arith, ap length q))
drop_prefix-IsBytes (p ∷ ps) [] ip4 h e = absurd (not_some e)
drop_prefix-IsBytes (p ∷ ps) (b ∷ bs) ip4 h e = elim (Bool-cases (p == b)) [
  | inl q ↦
      let (bytes, same) = drop_prefix-IsBytes ps bs ip4 h.1 (rw q at e) in
      (bytes, ground (arith, same))
  | inr q ↦ absurd (not_some (rw q at e))
]

to4-IsBytes : (ip ip4 : Ip) → IsBytes ip → to4 ip ≡ some ip4 → IsBytes ip4 × (length ip4 ≡ 4)
unfolding to4
to4-IsBytes ip ip4 h e = elim (Bool-cases (length ip == 4)) [
  | inl q ↦
      let same : ip ≡ ip4 = some-injective (rw (to4, q) at e) in
      (subst IsBytes same h, ap length (sym same) ∙ (ground (arith, q)))
  | inr q ↦ elim (Bool-cases (length ip == 16)) [
    | inl r ↦
        let (bytes, n) = drop_prefix-IsBytes v4_prefix ip ip4 h (rw (to4, q, r) at e) in
        (bytes, ground (arith, r, n))
    | inr r ↦ absurd (not_some (rw (to4, q, r) at e))
  ]
]

be_uint32-put_back :
    (ip4 : Ip)
    → IsBytes ip4
    → length ip4 ≡ 4
    → (be_uint32 ip4 < 2 ^ 32) × (put_uint32 (be_uint32 ip4) ≡ ip4)
unfolding be_uint32 be_from put_uint32
be_uint32-put_back (a ∷ b ∷ c ∷ d ∷ []) (h, (i, (j, (k, _)))) e =
    (omega arith, four_eq (omega arith) (omega arith) (omega arith) (omega arith))
  where
    four_eq :
        {a b c d w x y z : ℕ}
        → a ≡ w
        → b ≡ x
        → c ≡ y
        → d ≡ z
        → a ∷ b ∷ c ∷ d ∷ [] ≡ w ∷ x ∷ y ∷ z ∷ []
    four_eq e f g h = cc
be_uint32-put_back [] h e = absurd (omega arith)
be_uint32-put_back (a ∷ []) h e = absurd (omega arith)
be_uint32-put_back (a ∷ b ∷ []) h e = absurd (omega arith)
be_uint32-put_back (a ∷ b ∷ c ∷ []) h e = absurd (omega arith)
be_uint32-put_back (a ∷ b ∷ c ∷ d ∷ x ∷ xs) h e = absurd (omega arith)

-- The query by which ip2c is asked for an address of bytes is the number of its 4-byte form: a decimal
-- number below 2^32 from which the form can be read back, so that the number overflows nowhere and
-- different forms are asked for by different numbers.
pub ip2c_query-IsNumberOf :
    (ip ip4 : Ip)
    → IsBytes ip
    → to4 ip ≡ some ip4
    → (s : String) × (ip2c_query ip4 ≡ ("dec", s) ∷ []) × IsNumberOf s ip4
unfolding ip2c_query
ip2c_query-IsNumberOf ip ip4 h e =
    let (bytes, four) = to4-IsBytes ip ip4 h e in
    let (below, back) = be_uint32-put_back ip4 bytes four in
    (
      itoa (be_uint32 ip4),
      refl,
      (be_uint32 ip4, below, atoi-itoa (be_uint32 ip4) (omega arith), back),
    )
