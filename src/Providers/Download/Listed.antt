-- ===== src/Providers/Download/Listed.antt =====
-- What getFileData of providers/dbip_lite.go finds on a page.
use mathlib.Core.List.{Memᴰ}
use topographer.Base.{
  ◌≡◌, refl, sym, subst, ap, ◌∙◌, String, Bool-cases, true, none, some, List, [], ◌∷◌, inl, inr,
  nat_eq, string_eq, Option-cases,
}
use topographer.Providers.Download.{Card, has_checksum}
use topographer.Providers.Download.Dbip.{is_dbip_url, first_sum, first_link, first_card}

-- The link and the checksum are in one card of the page, and both have the form that is asked for.
abbrev pub IsListed : List Card → String → String → Type 0
IsListed cards url text =
    (card : Card) × Memᴰ card cards
    × Memᴰ url card.links
    × Memᴰ text card.texts
    × (is_dbip_url url ≡ true)
    × (has_checksum 40 text ≡ true)

some_eq : {A : Type 0} {x y : A} → some x ≡ some y → x ≡ y
some_eq h = cc

none-some : {A : Type 0} {x : A} → none ≡ some x → ⊥
none-some h = cc

first_sum-some :
    (ts : List String) (t : String) → first_sum ts ≡ some t → Memᴰ t ts × (has_checksum 40 t ≡ true)
unfolding first_sum
first_sum-some [] t h = absurd (none-some h)
first_sum-some (s ∷ ts) t h = elim (Bool-cases (has_checksum 40 s)) [
  | inl e ↦
      let same : s ≡ t = some_eq (rw e at h) in
      (Memᴰ.head (sym same), subst (λ s. has_checksum 40 s ≡ true) same e)
  | inr e ↦ let (member, found) = first_sum-some ts t (rw e at h) in (Memᴰ.tail member, found)
]

first_link-some :
    (ts urls : List String) (url t : String)
    → first_link ts urls ≡ some (url, t)
    → Memᴰ url urls × Memᴰ t ts × (is_dbip_url url ≡ true) × (has_checksum 40 t ≡ true)
unfolding first_link
first_link-some ts [] url t h = absurd (none-some h)
first_link-some ts (u ∷ us) url t h = elim (Bool-cases (is_dbip_url u)) [
  | inr e ↦ let (m, k, f, g) = first_link-some ts us url t (rw e at h) in (Memᴰ.tail m, k, f, g)
  | inl e ↦ elim (Option-cases (first_sum ts)) [
    | inl f ↦
        let (m, k, form, g) = first_link-some ts us url t (rw (e, f) at h) in
        (Memᴰ.tail m, k, form, g)
    | inr (s, f) ↦
        let pair : (u, s) ≡ (url, t) = some_eq (rw (e, f) at h) in
        let same : u ≡ url = ap (λ (p : String × String). p.0) pair in
        let (member, sum) =
          first_sum-some ts t (f ∙ ap some (ap (λ (p : String × String). p.1) pair)) in
        (Memᴰ.head (sym same), member, subst (λ u. is_dbip_url u ≡ true) same e, sum)
  ]
]

pub first_card-IsListed :
    (cards : List Card) (url t : String) → first_card cards ≡ some (url, t) → IsListed cards url t
unfolding first_card
first_card-IsListed [] url t h = absurd (none-some h)
first_card-IsListed (c ∷ cs) url t h = elim (Option-cases (first_link c.texts c.links)) [
  | inl e ↦
      let (card, m, l, k, f, g) = first_card-IsListed cs url t (rw e at h) in
      (card, Memᴰ.tail m, l, k, f, g)
  | inr (found, e) ↦
      let same : found ≡ (url, t) = some_eq (rw e at h) in
      let (m, member, form, sum) = first_link-some c.texts c.links url t (e ∙ ap some same) in
      (c, Memᴰ.head refl, m, member, form, sum)
]
