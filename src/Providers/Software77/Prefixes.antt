-- ===== src/Providers/Software77/Prefixes.antt =====
-- What kentik/patricia and go-cidrman document, and the tags that stand for an address in a tree of
-- providers/software77_db.go.
use mathlib.Core.List.{Memᴰ, append-nil, append_assoc}
use topographer.Base.{
  ℕ, ◌-◌, ◌*◌, ◌/◌, ◌^◌, ◌≤◌, ◌<◌, ◌≡◌, ◌≢◌, refl, sym, subst, ap, ◌∙◌, ◌⊎◌, inl, inr, Bool, true,
  false, Bool-cases, ◌&&◌, ◌||◌, Option, none, some, List, [], ◌∷◌, ◌++◌, length, All, ◌==◌, nat_eq,
  leb, if◌then◌else◌,
}
use topographer.Errors.{Result, ok}
use topographer.Structs.{Ip}
use topographer.Providers.Net.{be_uint32, put_uint32, to4}
use topographer.Providers.Software77.{
  IpNet, PrefixTree, RangeCodec, Software77Db, add_net, add_nets,
}

-- The first bits of the address are those of the net.
abbrev pub covers : IpNet → Ip → Bool
covers net ip =
    length net.ip == length ip
    && be_uint32 net.ip / 2 ^ (8 * length ip - net.mask)
      == be_uint32 ip / 2 ^ (8 * length ip - net.mask)

abbrev pub IsV4Net : IpNet → Type 0
IsV4Net net = (length net.ip ≡ 4) × (net.mask ≤ 32)

abbrev pub IsNet : IpNet → Type 0
IsNet net = IsV4Net net ⊎ ((length net.ip ≡ 16) × (net.mask ≤ 128))

-- FindDeepestTag finds nothing if no net with a tag has the address, or else a tag of a longest one
-- that has it.
abbrev pub IsDeepest : List (IpNet × ℕ) → Ip → Result (Option ℕ) → Type 0
IsDeepest tags ip r =
    ((r ≡ ok none) × All (λ (e : IpNet × ℕ). covers e.0 ip ≡ false) tags)
    ⊎ ((net : IpNet) × (v : ℕ) × (r ≡ ok (some v))
        × Memᴰ (net, v) tags
        × (covers net ip ≡ true)
        × All (λ (e : IpNet × ℕ). covers e.0 ip ≡ true → e.0.mask ≤ net.mask) tags)

-- The documented behaviour of a tree: `tags` are the nets with their tags.
pub record IsPrefixTree (p : PrefixTree) : Type 0 where
  pub tags : p.Tree → List (IpNet × ℕ)
  pub new_tags : tags p.new_tree ≡ []
  pub adds :
      (net : IpNet) (v : ℕ) (t : p.Tree)
      → IsNet net
      → (t' : p.Tree) × (p.add_tag net v t ≡ ok t') × (tags t' ≡ tags t ++ (net, v) ∷ [])
  pub finds : (ip : Ip) (t : p.Tree) → IsDeepest (tags t) ip (p.find_deepest_tag ip t)

abbrev pub any_covers : List IpNet → Ip → Bool
any_covers [] ip = false
any_covers (net ∷ nets) ip = covers net ip || any_covers nets ip

-- IPRangeToIPNets gives nets that have exactly the addresses of the range, ends included.
pub record IsRangeCodec (c : RangeCodec) : Type 0 where
  pub splits :
      (low high : ℕ)
      → low ≤ high
      → high < 2 ^ 32
      → (nets : List IpNet) × (c.range_to_ip_nets (put_uint32 low) (put_uint32 high) ≡ ok nets)
        × All IsV4Net nets
        × ((ip : Ip)
            → length ip ≡ 4
            → any_covers nets ip ≡ (leb low (be_uint32 ip) && leb (be_uint32 ip) high))

-- The tags of the nets that have the address.
abbrev pub matches : List (IpNet × ℕ) → Ip → List ℕ
matches [] ip = []
matches ((net, v) ∷ tags) ip = if covers net ip then v ∷ matches tags ip else matches tags ip

pub matches-append :
    (xs ys : List (IpNet × ℕ)) (ip : Ip) → matches (xs ++ ys) ip ≡ matches xs ip ++ matches ys ip
matches-append [] ys ip = refl
matches-append ((net, v) ∷ xs) ys ip = elim (Bool-cases (covers net ip)) [
  | inl e ↦ rw e (ap (λ l. v ∷ l) (matches-append xs ys ip))
  | inr e ↦ rw e (matches-append xs ys ip)
]

pub matches-nil :
    (tags : List (IpNet × ℕ)) (ip : Ip)
    → All (λ (e : IpNet × ℕ). covers e.0 ip ≡ false) tags
    → matches tags ip ≡ []
matches-nil [] ip h = refl
matches-nil ((net, v) ∷ tags) ip h = rw h.0 (matches-nil tags ip h.1)

pub mem-matches :
    (tags : List (IpNet × ℕ)) (ip : Ip) (net : IpNet) (v : ℕ)
    → Memᴰ (net, v) tags
    → covers net ip ≡ true
    → Memᴰ v (matches tags ip)
mem-matches [] ip net v m h = elim m [ ]
mem-matches ((n, w) ∷ tags) ip net v (Memᴰ.head q) h =
    let e : covers n ip ≡ true = ap (λ (x : IpNet × ℕ). covers x.0 ip) (sym q) ∙ h in
    rw e (Memᴰ.head (ap (λ (x : IpNet × ℕ). x.1) q))
mem-matches ((n, w) ∷ tags) ip net v (Memᴰ.tail m) h = elim (Bool-cases (covers n ip)) [
  | inl e ↦ rw e (Memᴰ.tail (mem-matches tags ip net v m h))
  | inr e ↦ rw e (mem-matches tags ip net v m h)
]

-- The tags that stand for an address: none, or some, all of the same country.
abbrev pub Stands : List ℕ → Option ℕ → Type 0
Stands vs none = vs ≡ []
Stands vs (some v) = (vs ≢ []) × All (λ x. x ≡ v) vs

-- The same tag on each of the nets.
abbrev pub tagged : List IpNet → ℕ → List (IpNet × ℕ)
tagged [] v = []
tagged (net ∷ nets) v = (net, v) ∷ tagged nets v

pub matches-tagged :
    (nets : List IpNet) (v : ℕ) (ip : Ip)
    → Stands (matches (tagged nets v) ip) (if any_covers nets ip then some v else none)
matches-tagged [] v ip = refl
matches-tagged (net ∷ nets) v ip = elim (Bool-cases (covers net ip)) [
  | inr e ↦ rw e (matches-tagged nets v ip)
  | inl e ↦
      rw e ((λ q. cc), (refl, all_same (matches (tagged nets v) ip) _ (matches-tagged nets v ip)))
]
  where
    all_same :
        (vs : List ℕ) (b : Bool) → Stands vs (if b then some v else none) → All (λ x. x ≡ v) vs
    all_same vs true h = h.1
    all_same vs false h = rw h tt

not_in_nil : (w : ℕ) (vs : List ℕ) → vs ≡ [] → Memᴰ w vs → ⊥
not_in_nil w vs h m = elim (subst (λ vs. Memᴰ w vs) h m) [ ]

same_of_mem : (v w : ℕ) (vs : List ℕ) → All (λ x. x ≡ v) vs → Memᴰ w vs → w ≡ v
same_of_mem v w [] h m = elim m [ ]
same_of_mem v w (x ∷ vs) h (Memᴰ.head q) = q ∙ h.0
same_of_mem v w (x ∷ vs) h (Memᴰ.tail m) = same_of_mem v w vs h.1 m

-- What the address finds in a tree.
pub finds-Stands :
    (p : PrefixTree) (l : IsPrefixTree p) (ip : Ip) (t : p.Tree) (o : Option ℕ)
    → Stands (matches (l.tags t) ip) o
    → p.find_deepest_tag ip t ≡ ok o
finds-Stands p l ip t none h = elim (l.finds ip t) [
  | inl (e, _) ↦ e
  | inr (net, w, e, m, c, _) ↦ absurd (not_in_nil w _ h (mem-matches (l.tags t) ip net w m c))
]
finds-Stands p l ip t (some v) h = elim (l.finds ip t) [
  | inl (e, n) ↦ absurd (h.0 (matches-nil (l.tags t) ip n))
  | inr (net, w, e, m, c, _) ↦
      e ∙ ap (λ x. ok (some x)) (same_of_mem v w _ h.1 (mem-matches (l.tags t) ip net w m c))
]

add_net-v4 :
    (p : PrefixTree) (net : IpNet) (v : ℕ) (s : Software77Db p) (t : p.Tree)
    → IsV4Net net
    → p.add_tag net v s.v4_tree ≡ ok t
    → add_net p net v s ≡ ok (record s { v4_tree = t })
unfolding add_net to4
add_net-v4 p net v s t h e = rw (h.0, e, add_net) refl

-- Adding nets to the IPv4 tree adds their tags behind those that are there.
pub add_nets-tags :
    (p : PrefixTree) (l : IsPrefixTree p) (nets : List IpNet) (v : ℕ) (s : Software77Db p)
    → All IsV4Net nets
    → (s' : Software77Db p) × (add_nets p nets v s ≡ ok s')
      × (l.tags s'.v4_tree ≡ l.tags s.v4_tree ++ tagged nets v)
      × (s'.v6_tree ≡ s.v6_tree)
unfolding add_nets
add_nets-tags p l [] v s h = (s, refl, sym (append-nil (l.tags s.v4_tree)), refl)
add_nets-tags p l (net ∷ nets) v s h =
    let (t, added, tags) = l.adds net v s.v4_tree (inl h.0) in
    let (s', rest, tags', same) = add_nets-tags p l nets v (record s { v4_tree = t }) h.1 in
    (
      s',
      rw (add_net-v4 p net v s t h.0 added) rest,
      tags' ∙ (ap (λ l. l ++ tagged nets v) tags ∙ append_assoc (l.tags s.v4_tree) _ _),
      same,
    )
