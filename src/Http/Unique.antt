-- ===== src/Http/Unique.antt =====
-- handlePostUniqueIPs and handlePostUniqueProviders of topolib/http_handler_post.go.
use mathlib.Core.List.{Perm, Permᴰ}
use mathlib.Core.List.Permᴰ
use mathlib.Core.Logic.{∥∥₁_elim}
use native.Mathlib.Nat.{ℕ_set}
use topographer.Base.{
  ℕ, suc, String, ◌≡◌, refl, ◌∙◌, Bool, true, false, Eq, ◌==◌, nat_eq, string_eq, List, [], ◌∷◌,
  map, arith, if◌then◌else◌, ◌&&◌, ◌||◌,
}
use topographer.Base.Assoc.{insert}
use topographer.Structs.{Ip, ip_eq}
use topographer.Http.{Codec, uniques_of, handle_post_unique_ips, handle_post_unique_providers}

-- The orders are arrangements of the entries.
pub record IsCodec (c : Codec) : Type 0 where
  pub ips : (m : List (Ip × Bool)) → Perm (c.ip_order m) m
  pub names : (m : List (String × Bool)) → Perm (c.name_order m) m

-- One if it is asked for and not there.
abbrev at_least : Bool → ℕ → ℕ
at_least asked n = if asked && n == 0 then 1 else n

module _ {ℓ} {K : Type ℓ} ⦃e : Eq K⦄ where
  abbrev pub occurrences : K → List K → ℕ
  occurrences k [] = 0
  occurrences k (x ∷ xs) = if x == k then suc (occurrences k xs) else occurrences k xs

  abbrev pub is_member : K → List K → Bool
  is_member k [] = false
  is_member k (x ∷ xs) = x == k || is_member k xs

  abbrev keys : List (K × Bool) → List K
  keys m = map (λ (e : K × Bool). e.0) m

  occurrences-insert :
      (k v : K) (m : List (K × Bool))
      → occurrences k (keys (insert v true m)) ≡ at_least (v == k) (occurrences k (keys m))
  unfolding insert
  occurrences-insert k v [] = ground arith
  occurrences-insert k v ((j, w) ∷ m) =
      ground (arith, occurrences-insert k v m, e.equal_iff j v, e.equal_iff v k, e.equal_iff j k)

  occurrences-uniques_of :
      (k : K) (xs : List K) (m : List (K × Bool))
      → occurrences k (keys (uniques_of xs m)) ≡ at_least (is_member k xs) (occurrences k (keys m))
  unfolding uniques_of
  occurrences-uniques_of k [] m = refl
  occurrences-uniques_of k (x ∷ xs) m =
      occurrences-uniques_of k xs (insert x true m) ∙ ground (arith, occurrences-insert k x m)

  occurrences-perm_d : (k : K) {xs ys : List K} → Permᴰ xs ys → occurrences k xs ≡ occurrences k ys
  occurrences-perm_d k Permᴰ.nil = refl
  occurrences-perm_d k (Permᴰ.cons q p) = rw (q, occurrences-perm_d k p) refl
  occurrences-perm_d k (Permᴰ.swap q r) = rw (q, r) (ground arith)
  occurrences-perm_d k (Permᴰ.trans p q) = occurrences-perm_d k p ∙ occurrences-perm_d k q

  occurrences-visit :
      (k : K) (xs : List K) (visited : List (K × Bool))
      → Perm visited (uniques_of xs [])
      → occurrences k (keys visited) ≡ (if is_member k xs then 1 else 0)
  occurrences-visit k xs visited p =
      ∥∥₁_elim p (hlevel ℕ_set) (λ q. occurrences-perm_d k (Permᴰ.map (λ (e : K × Bool). e.0) q))
      ∙ (occurrences-uniques_of k xs [] ∙ ground arith)

-- What a POST request asks to resolve has each address, and each provider's name, exactly once if
-- the request lists it, however often, and not at all otherwise; whatever the orders in which the maps
-- are visited.
pub handle_post_unique_lem :
    (c : Codec)
    → IsCodec c
    → (ips : List Ip) (names : List String)
    → ((ip : Ip)
        → occurrences ip (handle_post_unique_ips c ips) ≡ (if is_member ip ips then 1 else 0))
      × ((name : String)
          → occurrences name (handle_post_unique_providers c names)
            ≡ (if is_member name names then 1 else 0))
unfolding handle_post_unique_ips handle_post_unique_providers
handle_post_unique_lem c o ips names = (
  λ ip. occurrences-visit ip ips _ (o.ips (uniques_of ips [])),
  λ name. occurrences-visit name names _ (o.names (uniques_of names [])),
)
