-- ===== src/Providers/Download/Csv.antt =====
-- What is in the directory after a download of providers/software77.go.
use topographer.Base.{
  ℕ, ◌≡◌, refl, sym, subst, ap, ◌∙◌, String, Bool, Bool-cases, true, false, some, inl, inr,
  string_eq,
}
use topographer.Base.Assoc.{insert, lookup, lookup-insert}
use topographer.Errors.{Result, ok, err, ok-injective}
use topographer.HttpClient.{Response}
use topographer.Providers.Download.{
  Stream, DownloadEnv, Disk, context_io, lift, do_request, read_all, create, hashed_copy_response,
  has_checksum,
}
use topographer.Providers.Download.Steps.{
  Succeeds, err_fails, after-Succeeds, wrapped-Succeeds, lift-Succeeds, flushed-Succeeds,
  read_all-Succeeds, create-Succeeds, hashed_copy-Succeeds,
}
use topographer.Providers.Download.Software77.{
  ipv4_file_name, ipv6_file_name, software77_request, checked_sum, page_checksum,
  download_csv_checksum, download_csv_file, compared, unpack_csv, download_csv, errors_sent,
  received_error, download_software77, IsVerifiedCsv,
}

module _ (n : DownloadEnv) where
  checked-Succeeds :
      (content : String) (d : Disk) (s : String) (d' : Disk)
      → Succeeds (checked_sum n content d) s d'
      → (content ≡ s) × (has_checksum 32 content ≡ true) × (d ≡ d')
  checked-Succeeds content d s d' h = elim (Bool-cases (has_checksum 32 content)) [
    | inr e ↦ absurd (err_fails _ d s d' (rw e at h))
    | inl e ↦
        let (same, disk) = lift-Succeeds (ok content) d s d' (rw e at h) in
        (ok-injective same, e, disk)
  ]

  page_checksum-Succeeds :
      (page : Response) (d : Disk) (s : String) (d' : Disk)
      → Succeeds (page_checksum n page d) s d'
      → (n.trim_space (n.stream page.body).content ≡ s) × (has_checksum 32 s ≡ true) × (d ≡ d')
  page_checksum-Succeeds page d s d' h =
      let (content, d1, read, check) =
        after-Succeeds
          (context_io "cannot read from response body" (read_all (n.stream page.body)) d) _ s d'
          h in
      let (all, same) =
        read_all-Succeeds (n.stream page.body) d content d1
          (wrapped-Succeeds _ _ content d1 read) in
      let (sum, found, same2) = checked-Succeeds (n.trim_space content) d1 s d' check in
      (ap n.trim_space all ∙ sum, subst (λ s. has_checksum 32 s ≡ true) sum found, same ∙ same2)

  checksum-Succeeds :
      (param : String) (d : Disk) (s : String) (d' : Disk)
      → Succeeds (download_csv_checksum n param d) s d'
      → (page : Response) × (n.client (software77_request n param) ≡ ok page)
        × (n.trim_space (n.stream page.body).content ≡ s)
        × (has_checksum 32 s ≡ true)
        × (d.files ≡ d'.files)
  unfolding download_csv_checksum
  checksum-Succeeds param d s d' h =
      let (page, d1, req, rest) =
        after-Succeeds (do_request n (software77_request n param) d) _ s d' h in
      let (asked, same) = lift-Succeeds (n.client (software77_request n param)) d page d1 req in
      let (d2, inner, files) = flushed-Succeeds page.body (page_checksum n page d1) s d' rest in
      let (sum, found, same2) = page_checksum-Succeeds page d1 s d2 inner in
      (page, asked, sum, found, ap (λ (d : Disk). d.files) (same ∙ same2) ∙ files)

  file-Succeeds :
      (param : String) (d : Disk) (b : ℕ) (d' : Disk)
      → Succeeds (download_csv_file n param d) b d'
      → (source : Response) × (n.client (software77_request n param) ≡ ok source)
        × (source.body ≡ b)
        × (d.files ≡ d'.files)
  unfolding download_csv_file
  file-Succeeds param d b d' h =
      let (source, d1, req, rest) =
        after-Succeeds (do_request n (software77_request n param) d) _ b d' h in
      let (asked, same) = lift-Succeeds (n.client (software77_request n param)) d source d1 req in
      let (body, same2) = lift-Succeeds (ok source.body) d1 b d' rest in
      (source, asked, ok-injective body, ap (λ (d : Disk). d.files) (same ∙ same2))

  compared-Succeeds :
      (expected actual : String) (d d' : Disk)
      → Succeeds (compared n expected actual d) tt d'
      → (n.equal_fold expected actual ≡ true) × (d ≡ d')
  compared-Succeeds expected actual d d' h = elim (Bool-cases (n.equal_fold expected actual)) [
    | inr e ↦ absurd (err_fails _ d tt d' (rw e at h))
    | inl e ↦ (e, ap (λ (x : Result (Unit {0}) × Disk). x.1) (rw e at h))
  ]

  unpack_csv-Succeeds :
      (file expected : String) (b : ℕ) (d d' : Disk)
      → Succeeds (unpack_csv n file expected b d) tt d'
      → (reader : Stream) × (n.gunzip (n.stream b) ≡ ok reader)
        × (n.equal_fold expected (n.md5 reader.content) ≡ true)
        × (d'.files ≡ insert file reader.content (insert file "" d.files))
  unpack_csv-Succeeds file expected b d d' h =
      let (reader, d1, unpacked, rest) =
        after-Succeeds (context_io "cannot create a gzip reader" (lift (n.gunzip (n.stream b))) d) _
          tt d' h in
      let (gz, same) =
        lift-Succeeds (n.gunzip (n.stream b)) d reader d1
          (wrapped-Succeeds _ _ reader d1 unpacked) in
      let (_, d2, made, rest2) =
        after-Succeeds (context_io "cannot create a target filename" (create n file) d1) _ tt d'
          rest in
      let empty = create-Succeeds n file d1 d2 (wrapped-Succeeds _ _ tt d2 made) in
      let (actual, d3, copy, check) =
        after-Succeeds
          (context_io "cannot create a copy to a target file"
            (hashed_copy_response n n.md5 file reader) d2)
          _ tt d' rest2 in
      let (sum, full) =
        hashed_copy-Succeeds n n.md5 file reader d2 actual d3
          (wrapped-Succeeds _ _ actual d3 copy) in
      let (fold, same2) = compared-Succeeds expected actual d3 d' check in
      (
        reader,
        gz,
        subst (λ s. n.equal_fold expected s ≡ true) sum fold,
        ap (λ (d : Disk). d.files) (sym same2)
            ∙ (full
                ∙ ap (insert file reader.content)
                    (empty ∙ ap (λ (d : Disk). insert file "" d.files) (sym same))),
      )

  pub download_csv-Succeeds :
      (file download_param md5_param : String) (d d' : Disk)
      → Succeeds (download_csv n file download_param md5_param d) tt d'
      → (content : String) × IsVerifiedCsv n content download_param md5_param
        × (d'.files ≡ insert file content (insert file "" d.files))
  unfolding download_csv
  download_csv-Succeeds file download_param md5_param d d' h =
      let (expected, d1, first, rest) =
        after-Succeeds
          (context_io "cannot download a checksum" (download_csv_checksum n md5_param) d) _ tt d'
          h in
      let (page, asked, sum, found, same) =
        checksum-Succeeds md5_param d expected d1 (wrapped-Succeeds _ _ expected d1 first) in
      let (b, d2, second, rest2) =
        after-Succeeds (context_io "cannot download a file" (download_csv_file n download_param) d1)
          _ tt d' rest in
      let (source, asked2, body, same2) =
        file-Succeeds download_param d1 b d2 (wrapped-Succeeds _ _ b d2 second) in
      let (d3, third, same3) = flushed-Succeeds b (unpack_csv n file expected b d2) tt d' rest2 in
      let (reader, gz, fold, files) = unpack_csv-Succeeds file expected b d2 d3 third in
      (
        reader.content,
        (
          page,
          source,
          reader,
          asked,
          asked2,
          subst (λ b. n.gunzip (n.stream b) ≡ ok reader) (sym body) gz,
          refl,
          subst (λ s. has_checksum 32 s ≡ true) (sym sum) found,
          subst (λ s. n.equal_fold s (n.md5 reader.content) ≡ true) (sym sum) fold,
        ),
        sym same3
            ∙ (files
                ∙ ap (λ l. insert file reader.content (insert file "" l)) (sym (same ∙ same2))),
      )

  both_sent :
      (v6_first : Bool) (r q : Result (Unit {0}))
      → received_error n (errors_sent n v6_first r q) ≡ ok tt
      → (r ≡ ok tt) × (q ≡ ok tt)
  both_sent v6_first (ok _) (ok _) h = (refl, refl)
  both_sent v6_first (err e) (ok _) h = cc
  both_sent v6_first (ok _) (err f) h = cc
  both_sent true (err e) (err f) h = cc
  both_sent false (err e) (err f) h = cc

  Succeeds-of_result : (x : Result (Unit {0}) × Disk) → x.0 ≡ ok tt → Succeeds x tt x.1
  Succeeds-of_result (r, d) h = ap (λ r. (r, d)) h

  -- If the download of Software77 reports no error, whichever goroutine would have been the first to report
  -- one, then each of the two files has the unpacked body of the response to its request, and its MD5 sum
  -- agrees, up to the case of letters, with the trimmed body of the response to the request for its
  -- checksum, in which there are 32 hexadecimal digits in a row.
  pub download_software77-IsVerifiedCsv :
      (v6_first : Bool) (d d' : Disk)
      → Succeeds (download_software77 n v6_first d) tt d'
      → ((content : String) × (lookup ipv4_file_name d'.files ≡ some content)
          × IsVerifiedCsv n content "1" "3")
        × ((content : String) × (lookup ipv6_file_name d'.files ≡ some content)
            × IsVerifiedCsv n content "9" "10")
  unfolding download_software77
  download_software77-IsVerifiedCsv v6_first d d' h =
      let v4 = download_csv n ipv4_file_name "1" "3" d in
      let v6 = download_csv n ipv6_file_name "9" "10" v4.1 in
      let (first, second) =
        both_sent v6_first v4.0 v6.0 (ap (λ (x : Result (Unit {0}) × Disk). x.0) h) in
      let (c4, verified4, files4) =
        download_csv-Succeeds ipv4_file_name "1" "3" d v4.1 (Succeeds-of_result v4 first) in
      let (c6, verified6, files6) =
        download_csv-Succeeds ipv6_file_name "9" "10" v4.1 v6.1 (Succeeds-of_result v6 second) in
      let last : v6.1.files ≡ d'.files = ap (λ (x : Result (Unit {0}) × Disk). x.1.files) h in
      (
        (
          c4,
          ap (lookup ipv4_file_name) (sym last ∙ files6)
              ∙ (lookup-insert ipv6_file_name ipv4_file_name c6 _
                  ∙ (lookup-insert ipv6_file_name ipv4_file_name "" v4.1.files
                      ∙ (ap (lookup ipv4_file_name) files4
                          ∙ lookup-insert ipv4_file_name ipv4_file_name c4 _))),
          verified4,
        ),
        (
          c6,
          ap (lookup ipv6_file_name) (sym last ∙ files6)
              ∙ lookup-insert ipv6_file_name ipv6_file_name c6 _,
          verified6,
        ),
      )
