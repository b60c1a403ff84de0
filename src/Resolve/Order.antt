-- ===== src/Resolve/Order.antt =====
-- Sorting by distinct keys, as ResolveAll of topolib/topographer.go sorts its results: the outcome
-- does not depend on the order of arrival.
use mathlib.Core.Logic.{∥∥₁_elim}
use mathlib.Core.List.{Perm, Permᴰ}
use mathlib.Core.List.Perm
use topographer.Base.{
  ℕ, suc, ◌≤◌, ◌<◌, ◌≡◌, ◌≢◌, refl, sym, ap, ap₂, subst, ◌∙◌, List, [], ◌∷◌, arith, All,
}
use topographer.Resolve.{insert_by, sort_by}

module _ {ℓ} {A : Type ℓ} (key : A → ℕ) where
  -- All keys differ.
  abbrev pub HasDistinct : List A → Type ℓ
  HasDistinct [] = Unit
  HasDistinct (x ∷ xs) = All (λ y. key x ≢ key y) xs × HasDistinct xs

  -- The keys rise along the list, from `n` on.
  abbrev pub RisesFrom : ℕ → List A → Type 0
  RisesFrom n [] = Unit
  RisesFrom n (x ∷ xs) = (n ≤ key x) × RisesFrom (suc (key x)) xs

  insert_by_comm :
      (x y : A) (l : List A)
      → key x ≢ key y
      → insert_by key x (insert_by key y l) ≡ insert_by key y (insert_by key x l)
  unfolding insert_by
  insert_by_comm x y [] n = ground arith
  insert_by_comm x y (z ∷ l) n = ground (arith, insert_by_comm x y l n)

  All-perm : (P : A → Type 0) {xs ys : List A} → Permᴰ xs ys → All P xs → All P ys
  All-perm P Permᴰ.nil h = tt
  All-perm P (Permᴰ.cons e p) h = (subst P e h.0, All-perm P p h.1)
  All-perm P (Permᴰ.swap e f) h = (subst P f h.1.0, (subst P e h.0, h.1.1))
  All-perm P (Permᴰ.trans p q) h = All-perm P q (All-perm P p h)

  All-ne-cong :
      {x y : A} (xs : List A) → x ≡ y → All (λ z. key x ≢ key z) xs → All (λ z. key y ≢ key z) xs
  All-ne-cong xs e h = subst (λ x. All (λ z. key x ≢ key z) xs) e h

  HasDistinct-perm : {xs ys : List A} → Permᴰ xs ys → HasDistinct xs → HasDistinct ys
  HasDistinct-perm Permᴰ.nil h = tt
  HasDistinct-perm (Permᴰ.cons {l₂ = ys} e p) h =
      (All-ne-cong ys e (All-perm (λ z. _ ≢ key z) p h.0), HasDistinct-perm p h.1)
  HasDistinct-perm (Permᴰ.swap {l = l} e f) h = (
    ((λ q. h.0.0 (ap key e ∙ (sym q ∙ ap key (sym f)))), All-ne-cong l f h.1.0),
    (All-ne-cong l e h.0.1, h.1.1),
  )
  HasDistinct-perm (Permᴰ.trans p q) h = HasDistinct-perm q (HasDistinct-perm p h)

  sort_by-perm_d : {xs ys : List A} → Permᴰ xs ys → HasDistinct xs → sort_by key xs ≡ sort_by key ys
  unfolding sort_by
  sort_by-perm_d Permᴰ.nil h = refl
  sort_by-perm_d (Permᴰ.cons e p) h = ap₂ (insert_by key) e (sort_by-perm_d p h.1)
  sort_by-perm_d (Permᴰ.swap {a = a} {b = b} {l = l} e f) h =
      insert_by_comm a b (sort_by key l) h.0.0
      ∙ ap₂ (λ u v. insert_by key u (insert_by key v (sort_by key l))) f e
  sort_by-perm_d (Permᴰ.trans p q) h = sort_by-perm_d p h ∙ sort_by-perm_d q (HasDistinct-perm p h)

  pub RisesFrom-mono : (n m : ℕ) (xs : List A) → n ≤ m → RisesFrom m xs → RisesFrom n xs
  RisesFrom-mono n m [] le h = tt
  RisesFrom-mono n m (x ∷ xs) le h = (omega arith, h.1)

  insert_by-least :
      (n : ℕ) (x : A) (xs : List A) → key x < n → RisesFrom n xs → insert_by key x xs ≡ x ∷ xs
  unfolding insert_by
  insert_by-least n x [] lt h = refl
  insert_by-least n x (y ∷ xs) lt h = ground arith

  sort_by-RisesFrom : (n : ℕ) (xs : List A) → RisesFrom n xs → sort_by key xs ≡ xs
  unfolding sort_by
  sort_by-RisesFrom n [] h = refl
  sort_by-RisesFrom n (x ∷ xs) h =
      ap (insert_by key x) (sort_by-RisesFrom (suc (key x)) xs h.1)
      ∙ insert_by-least (suc (key x)) x xs (omega arith) h.1

  distinct_of_rise :
      (n : ℕ) (x : A) (xs : List A) → key x < n → RisesFrom n xs → All (λ y. key x ≢ key y) xs
  distinct_of_rise n x [] lt h = tt
  distinct_of_rise n x (y ∷ xs) lt h =
      (omega arith, distinct_of_rise (suc (key y)) x xs (omega arith) h.1)

  RisesFrom-HasDistinct : (n : ℕ) (xs : List A) → RisesFrom n xs → HasDistinct xs
  RisesFrom-HasDistinct n [] h = tt
  RisesFrom-HasDistinct n (x ∷ xs) h = (
    distinct_of_rise (suc (key x)) x xs (omega arith) h.1,
    RisesFrom-HasDistinct (suc (key x)) xs h.1,
  )

  -- Sorting any arrangement of a list with rising keys gives this list.
  pub sort_by_arrangement :
      IsSet A
      → (n : ℕ) (xs arrived : List A) → RisesFrom n xs
      → Perm arrived xs
      → sort_by key arrived ≡ xs
  sort_by_arrangement s n xs arrived h p =
      ∥∥₁_elim (Perm.symm p) (hlevel s) (λ q. sym (sort_by-perm_d q (RisesFrom-HasDistinct n xs h)))
      ∙ sort_by-RisesFrom n xs h
