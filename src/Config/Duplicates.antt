-- ===== src/Config/Duplicates.antt =====
-- What parseConfig of config.go makes sure of.
use topographer.Base.{
  String, ◌≡◌, ◌≢◌, refl, sym, ◌↔◌, Bool, true, none, List, [], ◌∷◌, map, arith, All, IsDistinct,
  string_eq, eq_iff,
}
use topographer.Base.Assoc.{lookup, insert, lookup-insert}
use topographer.Errors.{Result, ok, err, ◌>>=◌, >>=-eq-ok, context, ok-injective}
use topographer.Config.{
  Config, ConfigProvider, get_directory, get_root_directory, Seen, see, see_all, nothing_seen,
  ConfigCodec, parse_config,
}

abbrev name_of : ConfigProvider → String
name_of v = v.name

abbrev IsFresh : List (String × Bool) → List String → Type 0
IsFresh m ks = All (λ k. lookup k m ≡ none) ks

IsFresh-of_insert :
    (k : String) (m : List (String × Bool)) (ks : List String)
    → IsFresh (insert k true m) ks
    → All (λ n. k ≢ n) ks × IsFresh m ks
IsFresh-of_insert k m [] h = (tt, tt)
IsFresh-of_insert k m (n ∷ ks) h =
    let (differ, fresh) = IsFresh-of_insert k m ks h.1 in
    let e = lookup-insert k n true m in
    ((ground (arith, e, eq_iff k n), differ), (ground (arith, e), fresh))

insert-IsFresh :
    (k : String) (m : List (String × Bool)) (ks : List String)
    → All (λ n. k ≢ n) ks
    → IsFresh m ks
    → IsFresh (insert k true m) ks
insert-IsFresh k m [] d h = tt
insert-IsFresh k m (n ∷ ks) d h =
    (ground (arith, lookup-insert k n true m, eq_iff k n), insert-IsFresh k m ks d.1 h.1)

-- The names and the directories are new and distinct.
abbrev IsAcceptable : List ConfigProvider → Seen → Type 0
IsAcceptable vs seen =
    (IsFresh seen.names (map name_of vs) × IsDistinct (map name_of vs))
    × (IsFresh seen.directories (map get_directory vs) × IsDistinct (map get_directory vs))

-- What has been seen after one more provider.
abbrev with_provider : ConfigProvider → Seen → Seen
with_provider v seen = record {
  names = insert v.name true seen.names;
  directories = insert (get_directory v) true seen.directories;
}

see_inv :
    (v : ConfigProvider) (seen seen' : Seen)
    → see v seen ≡ ok seen'
    → (lookup v.name seen.names ≡ none)
      × (lookup (get_directory v) seen.directories ≡ none)
      × (seen' ≡ with_provider v seen)
unfolding see
see_inv v seen seen' h = ground arith

see_fresh :
    (v : ConfigProvider) (seen : Seen)
    → lookup v.name seen.names ≡ none
    → lookup (get_directory v) seen.directories ≡ none
    → see v seen ≡ ok (with_provider v seen)
unfolding see
see_fresh v seen h k = ground arith

IsAcceptable-of_see_all :
    (vs : List ConfigProvider) (seen seen' : Seen)
    → see_all vs seen ≡ ok seen'
    → IsAcceptable vs seen
unfolding see_all
IsAcceptable-of_see_all [] seen seen' h = ((tt, tt), (tt, tt))
IsAcceptable-of_see_all (v ∷ vs) seen seen' h =
    let (next, first, rest) = >>=-eq-ok (see v seen) (λ s. see_all vs s) h in
    let (new_name, new_directory, same) = see_inv v seen next first in
    let (names, directories) =
      IsAcceptable-of_see_all vs (with_provider v seen) seen' (rw (← same) rest) in
    let by_name = IsFresh-of_insert v.name seen.names (map name_of vs) names.0 in
    let by_directory =
      IsFresh-of_insert (get_directory v) seen.directories (map get_directory vs) directories.0 in
    (
      ((new_name, by_name.1), (by_name.0, names.1)),
      ((new_directory, by_directory.1), (by_directory.0, directories.1)),
    )

see_all_of_IsAcceptable :
    (vs : List ConfigProvider) (seen : Seen)
    → IsAcceptable vs seen
    → (seen' : Seen) × (see_all vs seen ≡ ok seen')
unfolding see_all
see_all_of_IsAcceptable [] seen h = (seen, refl)
see_all_of_IsAcceptable (v ∷ vs) seen (names, directories) =
    let (seen', done) = see_all_of_IsAcceptable vs (with_provider v seen) (
      (insert-IsFresh v.name seen.names _ names.1.0 names.0.1, names.1.1),
      (
        insert-IsFresh (get_directory v) seen.directories _ directories.1.0 directories.0.1,
        directories.1.1,
      ),
    ) in
    (seen', rw (see_fresh v seen names.0.0 directories.0.0) done)

context-bind-eq-ok {ℓ κ} :
    {A : Type ℓ} {B : Type κ} {y : B} (text : String) (r : Result A) (f : A → Result B)
    → (context text r >>= f) ≡ ok y
    → (x : A) × (r ≡ ok x) × (f x ≡ ok y)
context-bind-eq-ok text (err e) f h = cc
context-bind-eq-ok text (ok x) f h = (x, refl, h)

-- The file is read and decoded, its address and its root directory are valid, and no two
-- providers share a name or a directory.
abbrev pub IsParsed : ConfigCodec → Result String → Config → Type 0
IsParsed c content conf =
    (text : String) × (raw : Config) × (root : String) × (content ≡ ok text)
    × (c.decode text ≡ ok raw)
    × (c.split_host_port raw.listen ≡ ok tt)
    × (c.abs (get_root_directory c.temporary raw) ≡ ok root)
    × IsDistinct (map name_of raw.providers)
    × IsDistinct (map get_directory raw.providers)
    × (conf ≡ record raw { root_directory = root })

all-IsFresh : (ks : List String) → IsFresh [] ks
unfolding lookup
all-IsFresh [] = tt
all-IsFresh (k ∷ ks) = (refl, all-IsFresh ks)

module _ (c : ConfigCodec) (content : Result String) (conf : Config) where
  IsParsed-of_parse : parse_config c content ≡ ok conf → IsParsed c content conf
  unfolding parse_config
  IsParsed-of_parse h =
      let (text, read, h₁) = context-bind-eq-ok "cannot read file" content _ h in
      let (raw, decoded, h₂) = context-bind-eq-ok "cannot parse json" (c.decode text) _ h₁ in
      let (_, split, h₃) =
        context-bind-eq-ok "incorrect host:port for listen" (c.split_host_port raw.listen) _ h₂ in
      let (root, rooted, h₄) =
        context-bind-eq-ok "incorrect root directory" (c.abs (get_root_directory c.temporary raw)) _
          h₃ in
      let (seen, checked, same) = >>=-eq-ok (see_all raw.providers nothing_seen) _ h₄ in
      let (names, directories) = IsAcceptable-of_see_all raw.providers nothing_seen seen checked in
      (
        text,
        raw,
        root,
        read,
        decoded,
        split,
        rooted,
        names.1,
        directories.1,
        sym (ok-injective same),
      )

  parse_of_IsParsed : IsParsed c content conf → parse_config c content ≡ ok conf
  unfolding parse_config lookup
  parse_of_IsParsed (text, raw, root, read, decoded, split, rooted, names, directories, same) =
      let (seen, checked) =
        see_all_of_IsAcceptable raw.providers nothing_seen
          ((all-IsFresh _, names), (all-IsFresh _, directories)) in
      rw (read, decoded, split, rooted, checked, same) refl

  -- parseConfig returns a configuration exactly if the file is read and decoded, its address and its
  -- root directory are valid, and no two providers share a name or a directory (by default the name);
  -- the result is what is decoded, with the absolute root directory.
  pub parse_config-IsParsed : (parse_config c content ≡ ok conf) ↔ IsParsed c content conf
  parse_config-IsParsed = (IsParsed-of_parse, parse_of_IsParsed)
