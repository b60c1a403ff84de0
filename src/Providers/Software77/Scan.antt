-- ===== src/Providers/Software77/Scan.antt =====
-- The IPv4 part of a database of providers/software77_db.go against a reference: a scan over the rows
-- of the file.
use mathlib.Core.List.{append-nil}
use topographer.Base.{
  ℕ, ◌≡◌, ◌≢◌, refl, sym, subst, ap, ◌∙◌, inl, inr, String, Bool, true, false, Bool-cases, ◌&&◌,
  Option, none, some, List, [], ◌∷◌, ◌++◌, map, length, All, All-map, nat_eq, leb, if◌then◌else◌,
  arith,
}
use topographer.Base.Time.{ℤ}
use topographer.Errors.{Result, ok}
use topographer.Structs.{Ip}
use topographer.Country.{known}
use topographer.Providers.Net.{be_uint32, to_uint32, to_uint32-lt, atoi, to4}
use topographer.Providers.Software77.{
  PrefixTree, RangeCodec, Software77Db, new_software77_db, found, lookup_db, add_ipv4_range,
  add_record_v4, read_records, open_file, open_v4,
}
use topographer.Providers.Software77.Rows.{
  Row, fields, IsRow, is_in, IsDisjoint, code_of, applies, scan,
}
use topographer.Providers.Software77.Prefixes.{
  IsPrefixTree, IsRangeCodec, matches, matches-append, Stands, tagged, matches-tagged, finds-Stands,
  add_nets-tags,
}

-- What is found already, or else what the rows give.
abbrev or_else : Option ℕ → Option ℕ → Option ℕ
or_else none o = o
or_else (some v) o = some v

or_else-none : (o : Option ℕ) → or_else o none ≡ o
or_else-none none = refl
or_else-none (some v) = refl

or_else_assoc : (a b o : Option ℕ) → or_else (or_else a b) o ≡ or_else a (or_else b o)
or_else_assoc none b o = refl
or_else_assoc (some v) b o = refl

-- The new tags of a row behind those that are there.
Stands-append :
    (vs ws : List ℕ) (v : ℕ) (o : Option ℕ) (b : Bool)
    → Stands vs o
    → Stands ws (if b then some v else none)
    → (o ≢ none → b ≡ false)
    → Stands (vs ++ ws) (or_else o (if b then some v else none))
Stands-append vs ws v none b h k n = rw h k
Stands-append vs ws v (some w) true h k n = absurd (ground (arith, n (λ q. cc)))
Stands-append vs ws v (some w) false h k n = rw (k, append-nil vs) h

-- One row more: `o` is what the rows before it give.
abbrev Adds :
    (p : PrefixTree) → IsPrefixTree p → (ℕ → Option ℕ) → Software77Db p → Software77Db p → Type 0
Adds p l more s s' =
    (ip : Ip) (o : Option ℕ)
    → length ip ≡ 4
    → Stands (matches (l.tags s.v4_tree) ip) o
    → (o ≢ none → more (be_uint32 ip) ≡ none)
    → Stands (matches (l.tags s'.v4_tree) ip) (or_else o (more (be_uint32 ip)))

if-none : (v : ℕ) (b : Bool) → (if b then some v else none) ≡ none → b ≡ false
if-none v true h = absurd (cc)
if-none v false h = refl

within-codec :
    (r : Row) (low high : ℤ) (n : ℕ)
    → atoi r.start ≡ ok low
    → atoi r.end ≡ ok high
    → is_in r n ≡ (leb (to_uint32 low) n && leb n (to_uint32 high))
within-codec r low high n e f = rw (e, f) refl

pub lookup_db-v4 :
    (p : PrefixTree) (db : Software77Db p) (ip : Ip)
    → length ip ≡ 4
    → lookup_db p db ip ≡ found p (p.find_deepest_tag ip db.v4_tree)
unfolding lookup_db to4
lookup_db-v4 p db ip four = rw (four, lookup_db) refl

module _ (p : PrefixTree) (l : IsPrefixTree p) (c : RangeCodec) (d : IsRangeCodec c) where
  -- What one row gives the address.
  abbrev given : Row → ℕ → Option ℕ
  given r n = if applies c r n then some (code_of c r) else none

  add_row :
      (r : Row) (s : Software77Db p)
      → IsRow r
      → (s' : Software77Db p) × (add_ipv4_range p c r.start r.end r.country s ≡ ok s')
        × Adds p l (given r) s s'
  unfolding add_ipv4_range
  add_row r s (low, high, e, f, le) = elim (Bool-cases (known (code_of c r))) [
    | inr unknown ↦ rw unknown (s, refl, λ ip o four h n. rw (or_else-none o) h)
    | inl country ↦
        let (nets, split, v4, cover) =
          d.splits (to_uint32 low) (to_uint32 high) le (to_uint32-lt high) in
        let (s', added, tags, _) = add_nets-tags p l nets (code_of c r) s v4 in
        let v = code_of c r in
        rw country (
          s',
          rw (e, f, split) added,
          λ ip o four h n.
              subst (λ vs. Stands vs (or_else o (if is_in r (be_uint32 ip) then some v else none)))
                (sym (
                  ap (λ t. matches t ip) tags
                  ∙ matches-append (l.tags s.v4_tree) (tagged nets v) ip))
                (Stands-append (matches (l.tags s.v4_tree) ip) _ v o (is_in r (be_uint32 ip)) h
                  (subst (λ b. Stands (matches (tagged nets v) ip) (if b then some v else none))
                    (cover ip four ∙ sym (within-codec r low high (be_uint32 ip) e f))
                    (matches-tagged nets v ip))
                  (λ q. if-none v _ (n q))),
        )
  ]

  others-none : (rs : List Row) (n : ℕ) → All (λ q. is_in q n ≡ false) rs → scan c rs n ≡ none
  others-none [] n h = refl
  others-none (r ∷ rs) n h = elim (Bool-cases (known (code_of c r))) [
    | inl e ↦ rw (e, h.0) (others-none rs n h.1)
    | inr e ↦ rw e (others-none rs n h.1)
  ]

  scan-cons :
      (r : Row) (rs : List Row) (n : ℕ) → scan c (r ∷ rs) n ≡ or_else (given r n) (scan c rs n)
  scan-cons r rs n = elim (Bool-cases (applies c r n)) [ inl e ↦ rw e refl | inr e ↦ rw e refl ]

  add_record-row :
      (r : Row) (rs : List (Result (List String))) (s s1 : Software77Db p)
      → add_ipv4_range p c r.start r.end r.country s ≡ ok s1
      → read_records p c (add_record_v4 p c) (fields r ∷ rs) s
        ≡ read_records p c (add_record_v4 p c) rs s1
  unfolding read_records add_record_v4
  add_record-row r rs s s1 added = rw (read_records, added) refl

  -- The rows after a row that gives the address a country give it none.
  others_of_given :
      (r : Row) (rs : List Row) (n : ℕ) (o : Option ℕ)
      → All (λ q. (n : ℕ) → is_in r n ≡ true → is_in q n ≡ false) rs
      → (o ≢ none → scan c (r ∷ rs) n ≡ none)
      → (or_else o (given r n) ≢ none → scan c rs n ≡ none)
  others_of_given r rs n none apart h q = elim (Bool-cases (known (code_of c r))) [
    | inr e ↦ absurd (q (rw e refl))
    | inl e ↦ elim (Bool-cases (is_in r n)) [
      | inr f ↦ absurd (q (rw (e, f) refl))
      | inl f ↦ others-none rs n (All-map _ (λ q. is_in q n ≡ false) rs (λ a g. g n f) apart)
    ]
  ]
  others_of_given r rs n (some v) apart h q = elim (Bool-cases (applies c r n)) [
    | inl e ↦
        let bad : some (code_of c r) ≡ none =
          subst (λ b. (if b then some (code_of c r) else scan c rs n) ≡ none) e (h (λ q. cc)) in
        absurd (cc (bad))
    | inr e ↦ subst (λ b. (if b then some (code_of c r) else scan c rs n) ≡ none) e (h (λ q. cc))
  ]

  none_of_given : (r : Row) (rs : List Row) (n : ℕ) → scan c (r ∷ rs) n ≡ none → given r n ≡ none
  none_of_given r rs n h = elim (Bool-cases (applies c r n)) [
    | inl e ↦ rw e (subst (λ b. (if b then some (code_of c r) else scan c rs n) ≡ none) e h)
    | inr e ↦ rw e refl
  ]

  add_records :
      (rows : List Row) (s : Software77Db p)
      → All IsRow rows
      → IsDisjoint rows
      → (s' : Software77Db p) × (read_records p c (add_record_v4 p c) (map fields rows) s
          ≡ some (ok s'))
        × Adds p l (scan c rows) s s'
  unfolding read_records
  add_records [] s h apart = (s, refl, λ ip o four k n. rw (or_else-none o) k)
  add_records (r ∷ rs) s h apart =
      let (s1, added, one) = add_row r s h.0 in
      let (s', read, more) = add_records rs s1 h.1 apart.1 in
      (
        s',
        add_record-row r (map fields rs) s s1 added ∙ read,
        λ ip o four k n.
            let m = be_uint32 ip in
            subst (Stands (matches (l.tags s'.v4_tree) ip))
              (or_else_assoc o (given r m) (scan c rs m) ∙ ap (or_else o) (sym (scan-cons r rs m)))
              (more ip (or_else o (given r m)) four
                (one ip o four k (λ q. none_of_given r rs m (n q)))
                (others_of_given r rs m o apart.0 n)),
      )

  -- If each row of the IPv4 file has two numbers in order for its ends and no address is in two rows,
  -- then reading it into a new database succeeds, and a lookup of any 4-byte address in that database
  -- finds what a scan of the file finds: the country of the row whose range has the address as a
  -- big-endian number, both ends included, or that it has not been found. A row whose country is not
  -- known counts as absent.
  pub open_v4-scan :
      (rows : List Row)
      → All IsRow rows
      → IsDisjoint rows
      → (db : Software77Db p) × (open_v4 p c (ok (map fields rows)) (new_software77_db p)
          ≡ some (ok db))
        × ((ip : Ip)
            → length ip ≡ 4
            → lookup_db p db ip ≡ found p (ok (scan c rows (be_uint32 ip))))
  unfolding open_v4 open_file
  open_v4-scan rows h apart =
      let (db, read, more) = add_records rows (new_software77_db p) h apart in
      (
        db,
        read,
        λ ip four.
            lookup_db-v4 p db ip four
            ∙ ap (found p) (
                finds-Stands p l ip db.v4_tree _
                  (more ip none four (rw l.new_tags refl) (λ q. absurd (q refl)))),
      )
