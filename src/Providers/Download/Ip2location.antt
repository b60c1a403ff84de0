-- ===== src/Providers/Download/Ip2location.antt =====
-- Download of providers/ip2location.go: an archive in a temporary file, and the database in it.
use topographer.Base.{
  ◌≡◌, refl, sym, subst, ap, ◌∙◌, String, Bool-cases, true, false, not, Option, none, some, List,
  [], ◌∷◌, inl, inr, ◌==◌, string_eq, eq_iff, if◌then◌else◌,
}
use topographer.Base.Assoc.{insert, lookup, lookup-insert}
use topographer.Errors.{Err, message, Result, ok, err}
use topographer.HttpClient.{Response}
use topographer.Providers.Web.{WebRequest}
use topographer.Providers.Download.{
  Stream, ZipEntry, DownloadEnv, Disk, Io, ◌>>=◌, ◌>>◌, context_io, flushing, lift, fail,
  do_request, create, copy_response, removed_after,
}
use topographer.Providers.Download.Maxmind.{or_empty}
use topographer.Providers.Download.Extract.{lookup-remove_file}
use topographer.Providers.Download.Steps.{
  Succeeds, err_fails, after-Succeeds, wrapped-Succeeds, lift-Succeeds, flushed-Succeeds,
  removed-Succeeds, copy_response-Succeeds,
}

abbrev pub ip2location_file_name : String
ip2location_file_name = "database.bin"

-- `if err != nil`.
abbrev failing : Option Err → Result (Unit {0})
failing none = ok tt
failing (some e) = err e

module _ (n : DownloadEnv) where
  abbrev pub ip2location_request : (auth_token db_code : String) → WebRequest
  ip2location_request token code = record {
    url = n.url_string (record {
      scheme = "https";
      host = "www.ip2location.com";
      path = "/download/";
      query = ("token", token) ∷ ("file", code) ∷ [];
    });
    headers = [];
  }

  abbrev temp_made : Result String → Io String
  temp_made (err e) d = (err e, d)
  temp_made (ok temp) d = (ok temp, record d { files = insert temp "" d.files })

  -- zip.NewReader on the temporary file.
  abbrev zip_reader : String → Io (List ZipEntry)
  zip_reader temp d = (n.read_zip (or_empty (lookup temp d.files)), d)

  abbrev pub save_entry : ZipEntry → Io Unit
  save_entry z = do
    file ← context_io "cannot open a file in archive" (lift z.opened)
    context_io "cannot create a target file" (create n ip2location_file_name)
    context_io "cannot copy to target file" (copy_response n ip2location_file_name file)

  -- The loop over the entries of the archive.
  unfoldable pub save_first : List ZipEntry → Io Unit
  save_first [] = fail (message "cannot find BIN file in archive")
  save_first (z ∷ zs) =
      let rest = save_first zs in if not (n.upper_ext z.name == ".BIN") then rest else save_entry z

  abbrev pub use_temp : String → Response → Io Unit
  use_temp temp resp = do
    context_io "cannot copy archive" (copy_response n temp (n.stream resp.body))
    context_io "cannot seek to the start of the file" (lift (failing n.seek_error))
    context_io "cannot stat tempfile" (lift (failing n.stat_error))
    entries ← context_io "cannot initialize zip reader" (zip_reader temp)
    save_first entries

  abbrev pub save_archive : Response → Io Unit
  save_archive resp = do
    temp ← context_io "cannot create a tempfile" (temp_made n.temp_file)
    λ d. removed_after temp (use_temp temp resp d)

  unfoldable pub download_ip2location : (auth_token db_code : String) → Io Unit
  unfolding save_first
  download_ip2location token code = do
    resp ←
        context_io "cannot request a file download" (do_request n (ip2location_request token code))
    flushing resp.body (save_archive resp)

  -- The first entry with the extension of a database.
  pub data IsFirstBin : List ZipEntry → ZipEntry → Type 0 where
    here :
        (z : ZipEntry) (zs : List ZipEntry)
        → (n.upper_ext z.name == ".BIN") ≡ true
        → IsFirstBin (z ∷ zs) z
    later :
        (z y : ZipEntry) (zs : List ZipEntry)
        → (n.upper_ext z.name == ".BIN") ≡ false
        → IsFirstBin zs y
        → IsFirstBin (z ∷ zs) y

  save_first-Succeeds :
      (zs : List ZipEntry) (d d' : Disk)
      → Succeeds (save_first zs d) tt d'
      → (z : ZipEntry) × (file : Stream) × IsFirstBin zs z
        × (z.opened ≡ ok file)
        × (lookup ip2location_file_name d'.files ≡ some file.content)
  unfolding save_first
  save_first-Succeeds [] d d' h = absurd (err_fails _ d tt d' h)
  save_first-Succeeds (z ∷ zs) d d' h = elim (Bool-cases (n.upper_ext z.name == ".BIN")) [
    | inr e ↦
        let (y, file, first, opens, found) = save_first-Succeeds zs d d' (rw e at h) in
        (y, file, later z y zs e first, opens, found)
    | inl e ↦
        let name = ip2location_file_name in
        let saved : Succeeds (save_entry z d) tt d' = rw e at h in
        let (file, d1, opened, rest) =
          after-Succeeds (context_io "cannot open a file in archive" (lift z.opened) d) _ tt d'
            saved in
        let (opens, _) = lift-Succeeds z.opened d file d1 (wrapped-Succeeds _ _ file d1 opened) in
        let (_, d2, _, copy) =
          after-Succeeds (context_io "cannot create a target file" (create n name) d1) _ tt d'
            rest in
        let files = copy_response-Succeeds n name file d2 d' (
          wrapped-Succeeds "cannot copy to target file" (copy_response n name file d2) tt d'
            copy) in
        (
          z,
          file,
          here z zs e,
          opens,
          ap (lookup name) files ∙ lookup-insert name name file.content d2.files,
        )
  ]

  -- The database is the first one in the archive that the response has.
  abbrev pub IsIp2LocationDatabase : (auth_token db_code content : String) → Type 0
  IsIp2LocationDatabase token code content =
      (resp : Response) × (zs : List ZipEntry) × (z : ZipEntry) × (file : Stream) × (n.client
          (ip2location_request token code)
        ≡ ok resp)
      × (n.read_zip (n.stream resp.body).content ≡ ok zs)
      × IsFirstBin zs z
      × (z.opened ≡ ok file)
      × (file.content ≡ content)

  temp_made-ok :
      (r : Result String) (d : Disk) (temp : String) (d' : Disk)
      → Succeeds (temp_made r d) temp d'
      → r ≡ ok temp
  temp_made-ok (ok t) d temp d' h = ap (λ (x : Result String × Disk). x.0) h
  temp_made-ok (err e) d temp d' h = absurd (err_fails e d temp d' h)

  use_temp-Succeeds :
      (temp : String) (resp : Response) (d d' : Disk)
      → Succeeds (use_temp temp resp d) tt d'
      → (zs : List ZipEntry) × (z : ZipEntry) × (file : Stream) × (n.read_zip
            (n.stream resp.body).content
          ≡ ok zs)
        × IsFirstBin zs z
        × (z.opened ≡ ok file)
        × (lookup ip2location_file_name d'.files ≡ some file.content)
  use_temp-Succeeds temp resp d d' h =
      let s = n.stream resp.body in
      let (_, d1, copy, rest) =
        after-Succeeds (context_io "cannot copy archive" (copy_response n temp s) d) _ tt d' h in
      let files =
        copy_response-Succeeds n temp s d d1
          (wrapped-Succeeds _ (copy_response n temp s d) tt d1 copy) in
      let (_, d2, seek, rest2) =
        after-Succeeds
          (context_io "cannot seek to the start of the file" (lift (failing n.seek_error)) d1) _ tt
          d' rest in
      let (_, same) =
        lift-Succeeds (failing n.seek_error) d1 tt d2 (wrapped-Succeeds _ _ tt d2 seek) in
      let (_, d3, stat, rest3) =
        after-Succeeds (context_io "cannot stat tempfile" (lift (failing n.stat_error)) d2) _ tt d'
          rest2 in
      let (_, same2) =
        lift-Succeeds (failing n.stat_error) d2 tt d3 (wrapped-Succeeds _ _ tt d3 stat) in
      let (zs, d4, zip, rest4) =
        after-Succeeds (context_io "cannot initialize zip reader" (zip_reader temp) d3) _ tt d'
          rest3 in
      let (entries, _) =
        lift-Succeeds (n.read_zip (or_empty (lookup temp d3.files))) d3 zs d4
          (wrapped-Succeeds _ _ zs d4 zip) in
      let (z, file, first, opens, found) = save_first-Succeeds zs d4 d' rest4 in
      let stored : lookup temp d3.files ≡ some s.content =
        ap (λ (d : Disk). lookup temp d.files) (sym (same ∙ same2))
        ∙ (ap (lookup temp) files ∙ lookup_own temp s.content d.files) in
      (
        zs,
        z,
        file,
        subst (λ o. n.read_zip (or_empty o) ≡ ok zs) stored entries,
        first,
        opens,
        found,
      )
    where
      lookup_own :
          (name s : String) (files : List (String × String))
          → lookup name (insert name s files) ≡ some s
      lookup_own name s files =
          lookup-insert name name s files ∙ rw ((eq_iff name name).1 refl) refl

  -- If the temporary file has another name than the database file and the download of IP2Location reports no
  -- error, then the database file has the content of the first entry with the extension of a database in
  -- the archive that the response to its request has. There is no checksum.
  pub download_ip2location-IsIp2LocationDatabase :
      (token code : String) (d d' : Disk)
      → ((temp : String) → n.temp_file ≡ ok temp → (temp == ip2location_file_name) ≡ false)
      → Succeeds (download_ip2location token code d) tt d'
      → (content : String) × (lookup ip2location_file_name d'.files ≡ some content)
        × IsIp2LocationDatabase token code content
  unfolding download_ip2location
  download_ip2location-IsIp2LocationDatabase token code d d' other h =
      let (resp, d1, req, rest) =
        after-Succeeds
          (context_io "cannot request a file download"
            (do_request n (ip2location_request token code)) d)
          _ tt d' h in
      let (asked, _) =
        lift-Succeeds (n.client (ip2location_request token code)) d resp d1
          (wrapped-Succeeds _ _ resp d1 req) in
      let (d2, inner, same) = flushed-Succeeds resp.body (save_archive resp d1) tt d' rest in
      let (temp, d3, made, rest2) =
        after-Succeeds (context_io "cannot create a tempfile" (temp_made n.temp_file) d1) _ tt d2
          inner in
      let named =
        temp_made-ok n.temp_file d1 temp d3
          (wrapped-Succeeds _ (temp_made n.temp_file d1) temp d3 made) in
      let (d4, used, files) = removed-Succeeds temp (use_temp temp resp d3) d2 rest2 in
      let (zs, z, file, zip, first, opens, found) = use_temp-Succeeds temp resp d3 d4 used in
      (
        file.content,
        ap (lookup ip2location_file_name) (sym same ∙ files)
            ∙ (lookup-remove_file temp ip2location_file_name d4.files (other temp named) ∙ found),
        (resp, zs, z, file, asked, zip, first, opens, refl),
      )
