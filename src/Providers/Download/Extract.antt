-- ===== src/Providers/Download/Extract.antt =====
-- Unpacking the archive of providers/maxmind_lite.go.
use topographer.Base.{
  ◌≡◌, refl, sym, subst, ap, ◌∙◌, String, Bool, Bool-cases, true, false, not, ◌&&◌, ◌||◌, Option,
  none, some, List, [], ◌∷◌, inl, inr, ◌==◌, string_eq, arith, eq_iff,
}
use topographer.Base.Assoc.{insert, lookup, lookup-insert}
use topographer.Errors.{Err, Result, ok, err, ok-injective}
use topographer.Providers.Download.{
  Stream, TarEntry, DownloadEnv, Disk, context_io, lift, create, remove_file,
}
use topographer.Providers.Download.Dbip.{maxmind_base_file_name}
use topographer.Providers.Download.Steps.{
  Succeeds, err_fails, after-Succeeds, wrapped-Succeeds, lift-Succeeds, removed-Succeeds,
  copy_response-Succeeds,
}
use topographer.Providers.Download.Maxmind.{
  archive_name, or_empty, stored, opened, open_file, extract_loop, unpack_archive, extract_archive,
}

pub lookup-remove_file :
    (name read : String) (files : List (String × String))
    → (name == read) ≡ false
    → lookup read (remove_file name files) ≡ lookup read files
unfolding lookup remove_file
lookup-remove_file name read [] h = refl
lookup-remove_file name read ((file, s) ∷ files) h = ground (
  arith,
  lookup-remove_file name read files h,
  eq_iff file name,
  eq_iff name read,
  eq_iff file read,
)

module _ (n : DownloadEnv) where
  -- The entry is a plain file with the extension of a database.
  abbrev pub is_database : TarEntry → Bool
  is_database t = not (not (t.linkname == "") || t.is_dir) && (n.upper_ext t.name == ".MMDB")

  -- The entry is the first such one, and no header before it fails.
  pub data IsFirst : List (Result TarEntry) → TarEntry → Type 0 where
    here :
        (t : TarEntry) (es : List (Result TarEntry)) → is_database t ≡ true → IsFirst (ok t ∷ es) t
    later :
        (t u : TarEntry) (es : List (Result TarEntry))
        → is_database t ≡ false
        → IsFirst es u
        → IsFirst (ok t ∷ es) u

  extract_loop-Succeeds :
      (es : List (Result TarEntry)) (d d' : Disk)
      → Succeeds (extract_loop n es d) tt d'
      → (t : TarEntry) × IsFirst es t
        × (d'.files ≡ insert maxmind_base_file_name t.data_of.content d.files)
  unfolding extract_loop
  extract_loop-Succeeds [] d d' h = absurd (err_fails _ d tt d' h)
  extract_loop-Succeeds (err e ∷ es) d d' h = absurd (err_fails _ d tt d' h)
  extract_loop-Succeeds (ok t ∷ es) d d' h =
      elim (Bool-cases (not (t.linkname == "") || t.is_dir)) [
        | inl e ↦
            let (u, first, files) = extract_loop-Succeeds es d d' (rw e at h) in
            (u, later t u es (rw e refl) first, files)
        | inr e ↦ elim (Bool-cases (n.upper_ext t.name == ".MMDB")) [
          | inl f ↦ (
            t,
            here t es (rw (e, f) refl),
            copy_response-Succeeds n maxmind_base_file_name t.data_of d d'
                (wrapped-Succeeds "cannot copy into a database file" _ tt d' (rw (e, f) at h)),
          )
          | inr f ↦
              let (u, first, files) = extract_loop-Succeeds es d d' (rw (e, f) at h) in
              (u, later t u es (rw (e, f) refl) first, files)
        ]
      ]

  opened-Succeeds :
      (o : Option Err) (d : Disk) (s : Stream) (d' : Disk)
      → Succeeds (opened n o archive_name d) s d'
      → (s ≡ stored n archive_name d) × (d ≡ d')
  opened-Succeeds none d s d' h = (
    sym (ok-injective (ap (λ (x : Result Stream × Disk). x.0) h)),
    ap (λ (x : Result Stream × Disk). x.1) h,
  )
  opened-Succeeds (some e) d s d' h = absurd (err_fails e d s d' h)

  -- What the database file has after the archive was unpacked.
  abbrev pub IsUnpacked : (archive content : String) → Type 0
  IsUnpacked archive content =
      (tar : Stream) × (t : TarEntry) × (n.gunzip (record { content = archive; failure = none })
        ≡ ok tar)
      × IsFirst (n.read_tar tar) t
      × (t.data_of.content ≡ content)

  pub extract_archive-Succeeds :
      (archive : String) (d d' : Disk)
      → lookup archive_name d.files ≡ some archive
      → Succeeds (extract_archive n d) tt d'
      → (content : String) × (lookup maxmind_base_file_name d'.files ≡ some content)
        × IsUnpacked archive content
  unfolding extract_archive
  extract_archive-Succeeds archive d d' found h =
      let file = maxmind_base_file_name in
      let (s, d1, open1, rest) =
        after-Succeeds (context_io "cannot open archive" (open_file n archive_name) d) _ tt d' h in
      let (same, disk) =
        opened-Succeeds (n.open_error archive_name) d s d1 (wrapped-Succeeds _ _ s d1 open1) in
      let (_, d2, made, rest2) =
        after-Succeeds (context_io "cannot create a file for a database" (create n file) d1) _ tt d'
          rest in
      let (d3, inner, files) = removed-Succeeds archive_name (unpack_archive n s d2) d' rest2 in
      let (tar, d4, gz, rest3) =
        after-Succeeds (context_io "cannot create a gzip reader" (lift (n.gunzip s)) d2) _ tt d3
          inner in
      let (unzipped, disk2) =
        lift-Succeeds (n.gunzip s) d2 tar d4 (wrapped-Succeeds _ _ tar d4 gz) in
      let (t, first, written) = extract_loop-Succeeds (n.read_tar tar) d4 d3 rest3 in
      (
        t.data_of.content,
        ap (lookup file) files
            ∙ (lookup-remove_file archive_name file d3.files refl
                ∙ (ap (lookup file) written ∙ lookup-insert file file t.data_of.content d4.files)),
        (
          tar,
          t,
          subst (λ s. n.gunzip s ≡ ok tar)
              (same ∙ ap (λ o. record { content = or_empty o; failure = none }) found) unzipped,
          first,
          refl,
        ),
      )
