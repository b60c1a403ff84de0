-- ===== src/Providers/Download/Archive.antt =====
-- What is in the directory after a download of providers/maxmind_lite.go that reports no error.
use mathlib.Core.Option
use topographer.Base.{
  ◌≡◌, refl, sym, subst, ap, ◌∙◌, String, Bool-cases, true, Option, none, some, inl, inr, string_eq,
}
use topographer.Base.Assoc.{insert, lookup, lookup-insert}
use topographer.Errors.{Err, Result, ok, err, ok-injective}
use topographer.HttpClient.{Response}
use topographer.Providers.Download.{
  DownloadEnv, Disk, wrapped, context_io, flushing, do_request, read_all, create, has_checksum,
}
use topographer.Providers.Download.Dbip.{maxmind_base_file_name}
use topographer.Providers.Download.Steps.{
  Succeeds, err_fails, after-Succeeds, wrapped-Succeeds, lift-Succeeds, flushed-Succeeds,
  read_all-Succeeds,
}
use topographer.Providers.Download.Maxmind.{
  archive_name, before_blank, checked_sum, piped, maxmind_request, page_checksum, download_checksum,
  request_archive, body_chunks, copy_archive, pipe_copied, archive_received, download_archive,
  extract_archive, finish, checksum_received, download_maxmind,
}
use topographer.Providers.Download.Pipe.{Pipe, new_pipe, write_chunks, write_chunks-content}
use topographer.Providers.Download.Extract.{IsUnpacked, extract_archive-Succeeds}

some_eq : {A : Type 0} {x y : A} → some x ≡ some y → x ≡ y
some_eq h = cc

none-some : {A : Type 0} {x : A} → none ≡ some x → ⊥
none-some h = cc

not_ok : {e : Err} {s : String} → err e ≡ ok s → ⊥
not_ok h = cc

module _ (n : DownloadEnv) where
  piped-Succeeds :
      (failure write : Option Err) (content kept sum : String) (d : Disk) (s : String) (d' : Disk)
      → Succeeds (piped failure write content kept sum d) s d'
      → (s ≡ sum) × (d'.files ≡ insert archive_name content d.files) × (write ≡ none)
  piped-Succeeds (some e) write content kept sum d s d' h = absurd (err_fails _ _ s d' h)
  piped-Succeeds none (some e) content kept sum d s d' h = absurd (err_fails _ _ s d' h)
  piped-Succeeds none none content kept sum d s d' h = (
    sym (ok-injective (ap (λ (x : Result String × Disk). x.0) h)),
    sym (ap (λ (x : Result String × Disk). x.1.files) h),
    refl,
  )

  page_checksum-Succeeds :
      (page : Response) (d : Disk) (s : String) (d' : Disk)
      → Succeeds (page_checksum n page d) s d'
      → (before_blank (n.stream page.body).content ≡ some s) × (has_checksum 64 s ≡ true)
  page_checksum-Succeeds page d s d' h =
      let (content, d1, read, check) =
        after-Succeeds
          (context_io "cannot read body of the response" (read_all (n.stream page.body)) d) _ s d'
          h in
      let (all, _) =
        read_all-Succeeds (n.stream page.body) d content d1
          (wrapped-Succeeds _ _ content d1 read) in
      let (sum, _) = lift-Succeeds (checked_sum (before_blank content)) d1 s d' check in
      let (before, found) = checked (before_blank content) s sum in
      (ap before_blank all ∙ before, found)
    where
      checked :
          (o : Option String) (s : String)
          → checked_sum o ≡ ok s
          → (o ≡ some s) × (has_checksum 64 s ≡ true)
      checked none s h = cc
      checked (some t) s h = elim (Bool-cases (has_checksum 64 t)) [
        | inl e ↦
            let same : t ≡ s = ok-injective (rw e at h) in
            (ap some same, subst (λ s. has_checksum 64 s ≡ true) same e)
        | inr e ↦ absurd (not_ok (rw e at h))
      ]

  -- The checksum page has a text with 64 hexadecimal digits in a row before its first blank.
  abbrev pub IsSumPage : (license_key expected : String) → Type 0
  IsSumPage key expected =
      (page : Response) × (n.client (maxmind_request n key "tar.gz.sha256") ≡ ok page)
      × (before_blank (n.stream page.body).content ≡ some expected)
      × (has_checksum 64 expected ≡ true)

  checksum-Succeeds :
      (key : String) (d : Disk) (s : String) (d' : Disk)
      → Succeeds (download_checksum n key d) s d'
      → IsSumPage key s
  unfolding download_checksum
  checksum-Succeeds key d s d' h =
      let (page, d1, req, rest) =
        after-Succeeds
          (context_io "cannot fetch checksum page"
            (do_request n (maxmind_request n key "tar.gz.sha256")) d)
          _ s d' h in
      let (asked, _) =
        lift-Succeeds (n.client (maxmind_request n key "tar.gz.sha256")) d page d1
          (wrapped-Succeeds _ _ page d1 req) in
      let (d2, inner, _) = flushed-Succeeds page.body (page_checksum n page d1) s d' rest in
      let (before, found) = page_checksum-Succeeds page d1 s d2 inner in
      (page, asked, before, found)

  request-Succeeds :
      (key : String) (d : Disk) (resp : Response) (d' : Disk)
      → Succeeds (request_archive n key d) resp d'
      → n.client (maxmind_request n key "tar.gz") ≡ ok resp
  request-Succeeds key d resp d' h =
      let (_, d1, _, rest) =
        after-Succeeds (context_io "cannot create an archive file" (create n archive_name) d) _ resp
          d' h in
      let (asked, _) =
        lift-Succeeds (n.client (maxmind_request n key "tar.gz")) d1 resp d'
          (wrapped-Succeeds _ _ resp d' rest) in
      asked

  pipe_copied-ok :
      (resp : Response) (o : Option Pipe) (d : Disk) (sum : String) (d' : Disk)
      → pipe_copied n resp o d ≡ some (ok sum, d')
      → (p : Pipe) × (o ≡ some p) × Succeeds (flushing resp.body (copy_archive n resp p) d) sum d'
  pipe_copied-ok resp none d sum d' h = absurd (none-some h)
  pipe_copied-ok resp (some p) d sum d' h = (p, refl, some_eq h)

  archive_received-ok :
      (x : Result Response × Disk) (sum : String) (d' : Disk)
      → archive_received n x ≡ some (ok sum, d')
      → (resp : Response) × (d : Disk) × Succeeds x resp d
        × (sum ≡ n.sha256 (n.stream resp.body).content)
        × (lookup archive_name d'.files ≡ some (n.stream resp.body).content)
  unfolding archive_received
  archive_received-ok (err e, d) sum d' h = absurd (err_fails e d sum d' (some_eq h))
  archive_received-ok (ok resp, d) sum d' h =
      let s = n.stream resp.body in
      let (p, copied, made) =
        pipe_copied-ok resp (write_chunks n.chunk_error (body_chunks n resp) new_pipe) d sum d' h in
      let (d1, copy, same) = flushed-Succeeds resp.body (copy_archive n resp p d) sum d' made in
      let (hash, files, still) =
        piped-Succeeds s.failure p.stopped p.file _ (n.sha256 s.content) d sum d1 copy in
      let whole : p.file ≡ s.content =
        write_chunks-content n.chunk_error (n.read_sizes resp.body) s.content p copied still in
      (
        resp,
        d,
        refl,
        hash,
        ap (lookup archive_name) (sym same ∙ files)
            ∙ (lookup-insert archive_name archive_name p.file d.files ∙ ap some whole),
      )

  -- The database is the first one in the archive that the response has, and the SHA-256 sum of the archive
  -- is the one on the checksum page, up to the case of letters.
  abbrev pub IsMaxmindDatabase : (license_key content : String) → Type 0
  IsMaxmindDatabase key content =
      (expected : String) × (resp : Response) × IsSumPage key expected
      × (n.client (maxmind_request n key "tar.gz") ≡ ok resp)
      × (n.equal_fold expected (n.sha256 (n.stream resp.body).content) ≡ true)
      × IsUnpacked n (n.stream resp.body).content content

  finish-ok :
      (expected : String) (x : Result String × Disk) (d' : Disk)
      → Succeeds (finish n expected x) tt d'
      → (sum : String) × (d : Disk) × Succeeds x sum d
        × (n.equal_fold expected sum ≡ true)
        × Succeeds (extract_archive n d) tt d'
  finish-ok expected (err e, d) d' h = absurd (err_fails _ d tt d' h)
  finish-ok expected (ok sum, d) d' h = elim (Bool-cases (n.equal_fold expected sum)) [
    | inr e ↦ absurd (err_fails _ d tt d' (rw e at h))
    | inl e ↦ (sum, d, refl, e, wrapped-Succeeds _ (extract_archive n d) tt d' (rw e at h))
  ]

  -- If the download of MaxMind returns without an error, then the checksum page has 64 hexadecimal digits in
  -- a row before its first blank, they are the SHA-256 sum of the body of the response for the archive, up to
  -- the case of letters, and the database file has the content of the first plain file with the extension of a
  -- database in the archive.
  pub download_maxmind-IsMaxmindDatabase :
      (key : String) (d d' : Disk)
      → download_maxmind n key d ≡ some (ok tt, d')
      → (content : String) × (lookup maxmind_base_file_name d'.files ≡ some content)
        × IsMaxmindDatabase key content
  unfolding download_maxmind download_archive
  download_maxmind-IsMaxmindDatabase key d d' h =
      received-ok (wrapped "cannot download a checksum" (download_checksum n key d))
        (λ s d1 e. checksum-Succeeds key d s d1 (wrapped-Succeeds _ _ s d1 e)) h
    where
      archive-ok :
          (expected : String) (x : Option (Result String × Disk)) (d' : Disk)
          → Option.map (finish n expected) x ≡ some (ok tt, d')
          → (y : Result String × Disk) × (x ≡ some y) × Succeeds (finish n expected y) tt d'
      archive-ok expected none d' h = absurd (none-some h)
      archive-ok expected (some y) d' h = (y, refl, some_eq h)

      received-ok :
          (x : Result String × Disk)
          → ((s : String) (d : Disk) → Succeeds x s d → IsSumPage key s)
          → checksum_received n key x ≡ some (ok tt, d')
          → (content : String) × (lookup maxmind_base_file_name d'.files ≡ some content)
            × IsMaxmindDatabase key content
      received-ok (err e, d) page h = absurd (err_fails e d tt d' (some_eq h))
      received-ok (ok expected, d) page h =
          let (y, got, done) = archive-ok expected (download_archive n key d) d' h in
          let (sum, d2, made, fold, extracted) = finish-ok expected y d' done in
          let (resp, d3, req, hash, stored_as) =
            archive_received-ok (request_archive n key d) sum d2 (got ∙ ap some made) in
          let (content, found, unpacked) =
            extract_archive-Succeeds n (n.stream resp.body).content d2 d' stored_as extracted in
          (
            content,
            found,
            (
              expected,
              resp,
              page expected d refl,
              request-Succeeds key d resp d3 req,
              subst (λ s. n.equal_fold expected s ≡ true) hash fold,
              unpacked,
            ),
          )
