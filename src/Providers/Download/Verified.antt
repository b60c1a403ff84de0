-- ===== src/Providers/Download/Verified.antt =====
-- What is in the directory after a download of providers/dbip_lite.go or providers/maxmind_lite.go.
use topographer.Base.{
  ◌≡◌, refl, sym, subst, ap, ◌∙◌, String, Bool-cases, true, Option, none, some, List, inl, inr,
  ◌==◌, nat_eq, string_eq, arith,
}
use topographer.Base.Assoc.{insert, lookup, lookup-insert}
use topographer.Errors.{Result, ok, ok-injective}
use topographer.HttpClient.{Response}
use topographer.Providers.Download.{
  Stream, Card, DownloadEnv, Disk, context_io, lift, do_request, create, hashed_copy_response,
}
use topographer.Providers.Download.Steps.{
  Succeeds, err_fails, after-Succeeds, wrapped-Succeeds, lift-Succeeds, flushed-Succeeds,
  create-Succeeds, hashed_copy-Succeeds,
}
use topographer.Providers.Download.Dbip.{
  maxmind_base_file_name, page_request, url_request, page_data, page_status, get_file_data,
  first_card, on_page, compared, unpack_file, download_file, download_dbip,
}
use topographer.Providers.Download.Listed.{IsListed, first_card-IsListed}

module _ (n : DownloadEnv) where
  on_page-ok :
      (o : Option (String × String)) (found : String × String)
      → on_page n o ≡ ok found
      → o ≡ some found
  on_page-ok none found h = cc
  on_page-ok (some x) found h = ap some (ok-injective h)

  page_data-Succeeds :
      (page : Response) (d : Disk) (found : String × String) (d' : Disk)
      → Succeeds (page_data n page d) found d'
      → (cards : List Card) × (n.parse_html (n.stream page.body) ≡ ok cards)
        × IsListed cards found.0 found.1
        × (d ≡ d')
  page_data-Succeeds page d found d' h =
      let (cards, d1, parsed, rest) =
        after-Succeeds (context_io "cannot parse html" (lift (n.parse_html (n.stream page.body))) d)
          _ found d' h in
      let (html, same) =
        lift-Succeeds (n.parse_html (n.stream page.body)) d cards d1
          (wrapped-Succeeds _ _ cards d1 parsed) in
      let (on, same2) = lift-Succeeds (on_page n (first_card cards)) d1 found d' rest in
      (
        cards,
        html,
        first_card-IsListed cards found.0 found.1 (on_page-ok (first_card cards) found on),
        same ∙ same2,
      )

  page_status-Succeeds :
      (page : Response) (d : Disk) (found : String × String) (d' : Disk)
      → Succeeds (page_status n page d) found d'
      → (cards : List Card) × (page.status_code ≡ 200)
        × (n.parse_html (n.stream page.body) ≡ ok cards)
        × IsListed cards found.0 found.1
        × (d.files ≡ d'.files)
  page_status-Succeeds page d found d' h = elim (Bool-cases (page.status_code == 200)) [
    | inr e ↦ absurd (err_fails _ d found d' (rw e at h))
    | inl e ↦
        let (d1, inner, files) =
          flushed-Succeeds page.body (page_data n page d) found d' (rw e at h) in
        let (cards, html, listed, same) = page_data-Succeeds page d found d1 inner in
        (cards, ground (arith, e), html, listed, ap (λ (d : Disk). d.files) same ∙ files)
  ]

  compared-Succeeds :
      (checksum sum : String) (d d' : Disk)
      → Succeeds (compared n checksum sum d) tt d'
      → (n.equal_fold checksum sum ≡ true) × (d ≡ d')
  compared-Succeeds checksum sum d d' h = elim (Bool-cases (n.equal_fold checksum sum)) [
    | inr e ↦ absurd (err_fails _ d tt d' (rw e at h))
    | inl e ↦ (e, ap (λ (x : Result (Unit {0}) × Disk). x.1) (rw e at h))
  ]

  unpack_file-Succeeds :
      (sum : String) (resp : Response) (d d' : Disk)
      → Succeeds (unpack_file n sum resp d) tt d'
      → (reader : Stream) × (n.gunzip (n.stream resp.body) ≡ ok reader)
        × (n.equal_fold (n.sha1 reader.content) sum ≡ true)
        × (d'.files
            ≡ insert maxmind_base_file_name reader.content
                (insert maxmind_base_file_name "" d.files))
  unpack_file-Succeeds sum resp d d' h =
      let file = maxmind_base_file_name in
      let (reader, d1, unpacked, rest) =
        after-Succeeds
          (context_io "cannot create a gzip reader" (lift (n.gunzip (n.stream resp.body))) d) _ tt
          d' h in
      let (gz, same) =
        lift-Succeeds (n.gunzip (n.stream resp.body)) d reader d1
          (wrapped-Succeeds _ _ reader d1 unpacked) in
      let (_, d2, made, rest2) =
        after-Succeeds (context_io "cannot open a target file" (create n file) d1) _ tt d' rest in
      let empty = create-Succeeds n file d1 d2 (wrapped-Succeeds _ _ tt d2 made) in
      let (actual, d3, copy, check) =
        after-Succeeds
          (context_io "cannot save a file on filesystem" (hashed_copy_response n n.sha1 file reader)
            d2)
          _ tt d' rest2 in
      let (hash, full) =
        hashed_copy-Succeeds n n.sha1 file reader d2 actual d3
          (wrapped-Succeeds _ _ actual d3 copy) in
      let (fold, same2) = compared-Succeeds actual sum d3 d' check in
      (
        reader,
        gz,
        subst (λ s. n.equal_fold s sum ≡ true) hash fold,
        ap (λ (d : Disk). d.files) (sym same2)
            ∙ (full
                ∙ ap (insert file reader.content)
                    (empty ∙ ap (λ (d : Disk). insert file "" d.files) (sym same))),
      )

  -- The database is the unpacked body of the response to the link of a card, and its SHA-1 sum is the
  -- checksum of the card, up to the case of letters.
  abbrev pub IsDbipDatabase : String → Type 0
  IsDbipDatabase content =
      (page : Response) × (cards : List Card) × (url : String) × (text : String)
      × (source : Response) × (reader : Stream) × (n.client (page_request n) ≡ ok page)
      × (page.status_code ≡ 200)
      × (n.parse_html (n.stream page.body) ≡ ok cards)
      × IsListed cards url text
      × (n.client (url_request n url) ≡ ok source)
      × (n.gunzip (n.stream source.body) ≡ ok reader)
      × (reader.content ≡ content)
      × (n.equal_fold (n.sha1 content) text ≡ true)

  -- If the download of DB-IP reports no error, then the page has status 200 and a card with a link to an
  -- archive of db-ip.com and a text with 40 hexadecimal digits in a row, and the database file has the
  -- unpacked body of the response behind the link, whose SHA-1 sum is that text, up to the case of letters.
  pub download_dbip-IsDbipDatabase :
      (d d' : Disk)
      → Succeeds (download_dbip n d) tt d'
      → (content : String) × (lookup maxmind_base_file_name d'.files ≡ some content)
        × IsDbipDatabase content
  unfolding download_dbip get_file_data download_file
  download_dbip-IsDbipDatabase d d' h =
      let (found, d1, first, rest) =
        after-Succeeds (context_io "cannot parse html page" (get_file_data n) d) _ tt d' h in
      let (page, d2, req, on) =
        after-Succeeds
          (context_io "cannot request a download page" (do_request n (page_request n)) d) _ found d1
          (wrapped-Succeeds _ (get_file_data n d) found d1 first) in
      let (asked, _) =
        lift-Succeeds (n.client (page_request n)) d page d2 (wrapped-Succeeds _ _ page d2 req) in
      let (cards, status, html, listed, _) = page_status-Succeeds page d2 found d1 on in
      let (source, d3, req2, body) =
        after-Succeeds
          (context_io "cannot download a file" (do_request n (url_request n found.0)) d1) _ tt d'
          (wrapped-Succeeds _ (download_file n found.0 found.1 d1) tt d' rest) in
      let (asked2, _) =
        lift-Succeeds (n.client (url_request n found.0)) d1 source d3
          (wrapped-Succeeds _ _ source d3 req2) in
      let (d4, inner, same) =
        flushed-Succeeds source.body (unpack_file n found.1 source d3) tt d' body in
      let (reader, gz, sum, files) = unpack_file-Succeeds found.1 source d3 d4 inner in
      (
        reader.content,
        ap (lookup maxmind_base_file_name) (sym same ∙ files)
            ∙ lookup-insert maxmind_base_file_name maxmind_base_file_name reader.content _,
        (
          page, cards, found.0, found.1, source, reader, asked, status, html, listed, asked2, gz,
          refl, sum,
        ),
      )
