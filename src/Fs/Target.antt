-- ===== src/Fs/Target.antt =====
-- The directory that GetTargetDir of topolib/fs.go picks.
use mathlib.Core.List.{Memᴰ}
use topographer.Base.{
  String, ◌≡◌, refl, sym, ap, subst, ◌∙◌, ◌⊎◌, inl, inr, true, false, Bool-cases, List, [], ◌∷◌,
  arith, All, All-map,
}
use topographer.Base.Time.{pos, Time, ltb_ℤ, is_zero, ◌-ℤ◌, ◌≤ℤ◌, -ℤ_parts}
use topographer.Errors.{ok}
use topographer.Fs.{Entry, is_target, find_target, find_targets, get_target_dir}

-- The entry is not younger than the one that was picked, which has a time.
abbrev IsAfter : String × Time → String × Entry → Type 0
IsAfter r e = is_target e ≡ true → (is_zero r.1 ≡ false) × (r.1 ≤ℤ e.1.mod_time)

-- Modification times of files are not the zero time.
abbrev pub IsTimed : List (String × Entry) → Type 0
IsTimed es = All (λ (e : String × Entry). is_zero e.1.mod_time ≡ false) es

≤ℤ_of_difference : (a b : Time) → ltb_ℤ (a -ℤ b) (pos 0) ≡ false → b ≤ℤ a
≤ℤ_of_difference a b h = ground (arith, -ℤ_parts a b)

find_target-IsAfter :
    (best : String × Time) (e : String × Entry)
    → is_zero e.1.mod_time ≡ false
    → IsAfter (find_target best e) e
unfolding find_target
find_target-IsAfter best e timed target = elim (Bool-cases (is_zero best.1)) [
  | inl none_yet ↦ rw (target, none_yet) (timed, omega arith)
  | inr found ↦ elim (Bool-cases (ltb_ℤ (e.1.mod_time -ℤ best.1) (pos 0))) [
    | inl older ↦ rw (target, found, older) (timed, omega arith)
    | inr other ↦ rw (target, found, other) (found, ≤ℤ_of_difference e.1.mod_time best.1 other)
  ]
]

≤ℤ_of_negative : (a b : Time) → ltb_ℤ (a -ℤ b) (pos 0) ≡ true → a ≤ℤ b
≤ℤ_of_negative a b h = ground (arith, -ℤ_parts a b)

≤ℤ_trans : (a b c : Time) → a ≤ℤ b → b ≤ℤ c → a ≤ℤ c
≤ℤ_trans a b c h k = omega arith

-- The time that is picked is set and not after the given one.
abbrev IsWithin : String × Time → Time → Type 0
IsWithin r t = (is_zero r.1 ≡ false) × (r.1 ≤ℤ t)

find_target-IsWithin :
    (best : String × Time) (e : String × Entry)
    → is_zero e.1.mod_time ≡ false
    → is_zero best.1 ≡ false
    → IsWithin (find_target best e) best.1
unfolding find_target
find_target-IsWithin best e timed found = elim (Bool-cases (is_target e)) [
  | inr other ↦ rw other (found, omega arith)
  | inl target ↦ elim (Bool-cases (ltb_ℤ (e.1.mod_time -ℤ best.1) (pos 0))) [
    | inl older ↦ rw (target, found, older) (timed, ≤ℤ_of_negative e.1.mod_time best.1 older)
    | inr newer ↦ rw (target, found, newer) (found, omega arith)
  ]
]

find_targets-IsWithin :
    (best : String × Time) (es : List (String × Entry)) (t : Time)
    → IsTimed es
    → IsWithin best t
    → IsWithin (find_targets best es) t
unfolding find_targets
find_targets-IsWithin best [] t timed h = h
find_targets-IsWithin best (e ∷ es) t timed (found, before) =
    let (found', before') = find_target-IsWithin best e timed.0 found in
    find_targets-IsWithin (find_target best e) es t timed.1
      (found', ≤ℤ_trans (find_target best e).1 best.1 t before' before)

find_targets-IsAfter :
    (best : String × Time) (es : List (String × Entry))
    → IsTimed es
    → All (λ e. IsAfter (find_targets best es) e) es
unfolding find_targets
find_targets-IsAfter best [] timed = tt
find_targets-IsAfter best (e ∷ es) timed = (
  λ target.
      find_targets-IsWithin (find_target best e) es e.1.mod_time timed.1
        (find_target-IsAfter best e timed.0 target),
  find_targets-IsAfter (find_target best e) es timed.1,
)

-- The pair is the name and the time of a target directory of the list.
abbrev pub IsFound : List (String × Entry) → String × Time → Type 0
IsFound es r =
    (info : Entry) × Memᴰ (r.0, info) es × (is_target (r.0, info) ≡ true) × (info.mod_time ≡ r.1)

find_target_cases :
    (best : String × Time) (e : String × Entry)
    → (find_target best e ≡ best)
      ⊎ ((is_target e ≡ true) × (find_target best e ≡ (e.0, e.1.mod_time)))
unfolding find_target
find_target_cases best e = ground arith

find_targets_cases :
    (best : String × Time) (es : List (String × Entry))
    → (find_targets best es ≡ best) ⊎ IsFound es (find_targets best es)
unfolding find_targets
find_targets_cases best [] = inl refl
find_targets_cases best (e ∷ es) = elim (find_targets_cases (find_target best e) es) [
  | inr (info, m, target, same) ↦ inr (info, Memᴰ.tail m, target, same)
  | inl same ↦ elim (find_target_cases best e) [
    | inl kept ↦ inl (same ∙ kept)
    | inr (target, taken) ↦
        let r : find_targets (find_target best e) es ≡ (e.0, e.1.mod_time) = same ∙ taken in
        inr (rw r (e.1, Memᴰ.head refl, target, refl))
  ]
]

no_target :
    (r : String × Time) (e : String × Entry)
    → is_zero r.1 ≡ true
    → IsAfter r e
    → is_target e ≡ false
no_target r e blank k = elim (Bool-cases (is_target e)) [
  | inr other ↦ other
  | inl target ↦ absurd (ground (arith, (k target).0))
]

-- If no entry has the zero time, and in whichever order they are visited: GetTargetDir gives no name
-- only if there is no target directory; otherwise it gives a target directory, with its time,
-- than which no other target directory is older.
pub get_target_dir-oldest :
    (es : List (String × Entry)) (r : String × Time)
    → IsTimed es
    → get_target_dir (ok es) ≡ ok r
    → ((r.0 ≡ "") × All (λ (e : String × Entry). is_target e ≡ false) es)
      ⊎ (IsFound es r × All (λ (e : String × Entry). is_target e ≡ true → r.1 ≤ℤ e.1.mod_time) es)
unfolding get_target_dir
get_target_dir-oldest es r timed h =
    let same : find_targets ("", pos 0) es ≡ r = cc in
    let after : All (λ (e : String × Entry). IsAfter r e) es =
      subst (λ r. All (λ (e : String × Entry). IsAfter r e) es) same
        (find_targets-IsAfter ("", pos 0) es timed) in
    elim (find_targets_cases ("", pos 0) es) [
      | inr found ↦ inr (
        subst (λ r. IsFound es r) same found,
        All-map (λ e. IsAfter r e) _ es (λ e k target. (k target).1) after,
      )
      | inl nothing ↦
          let blank : r ≡ ("", pos 0) = sym same ∙ nothing in
          inl (
            ap (λ (r : String × Time). r.0) blank,
            All-map (λ e. IsAfter r e) _ es
                (λ e k. no_target r e (ap (λ (r : String × Time). is_zero r.1) blank) k) after,
          )
    ]
