-- ===== src/Providers/Download/Maxmind.antt =====
-- Download of providers/maxmind_lite.go: the checksum page, the archive and the database in it. A download
-- that never returns is `none`.
use Prim.Native.Char.{code}
use Prim.Native.String
use mathlib.Core.Option
use topographer.Base.{
  String, not, ◌||◌, Option, none, some, List, [], ◌∷◌, nat_beq, ◌==◌, string_eq, if◌then◌else◌,
}
use topographer.Base.Assoc.{insert, lookup}
use topographer.Errors.{Err, message, wrap, Result, ok, err}
use topographer.HttpClient.{Response}
use topographer.Providers.Web.{WebRequest}
use topographer.Providers.Download.{
  Stream, TarEntry, DownloadEnv, Disk, Io, ◌>>=◌, ◌>>◌, after, wrapped, context_io, flushing, lift,
  fail, do_request, read_all, create, copy_response, has_checksum, removed_after,
}
use topographer.Providers.Download.Dbip.{maxmind_base_file_name}
use topographer.Providers.Download.Pipe.{Pipe, new_pipe, chunks, write_chunks}

abbrev pub archive_name : String
archive_name = "archive.tar.gz"

-- The text before the first space or tab: `data[:pos]`.
unfoldable pub before_blank : String → Option String
before_blank String.[] = none
before_blank (String.◌∷◌ c s) =
    let rest = before_blank s in
    if nat_beq (code c) 32 || nat_beq (code c) 9
    then some ""
    else Option.map (λ t. String.◌∷◌ c t) rest

-- The error is `fmt.Errorf` with `%w` of a nil error.
abbrev pub checked_sum : Option String → Result String
checked_sum none = err (message "incorrect response format: %!w(<nil>)")
checked_sum (some s) =
    if not (has_checksum 64 s) then err (message "incorrect checksum format: %!w(<nil>)") else ok s

abbrev pub or_empty : Option String → String
or_empty none = ""
or_empty (some s) = s

abbrev pub no_file : Err
no_file = message "cannot find a database file in downloaded archive"

-- The error of `downloadArchive` is dropped.
abbrev pub archive_context : Result String × Disk → Result String × Disk
archive_context (ok s, d) = (ok s, d)
archive_context (err e, d) = (err (message "cannot download an archive"), d)

-- What the two copies through the pipe leave, given the error of the body and that of the file.
abbrev pub piped : (failure write : Option Err) → (content kept sum : String) → Io String
piped (some e) write content kept sum d =
    (err (wrap "cannot copy file into fs" e), record d { files = insert archive_name kept d.files })
piped none (some e) content kept sum d =
    (err (wrap "cannot write to tar file" e), record d { files = insert archive_name kept d.files })
piped none none content kept sum d =
    (ok sum, record d { files = insert archive_name content d.files })

module _ (n : DownloadEnv) where
  abbrev pub maxmind_request : (license_key suffix : String) → WebRequest
  maxmind_request license_key suffix = record {
    url = n.url_string (record {
      scheme = "https";
      host = "download.maxmind.com";
      path = "/app/geoip_download";
      query =
          ("edition_id", "GeoLite2-City") ∷ ("suffix", suffix) ∷ ("license_key", license_key) ∷ [];
    });
    headers = [];
  }

  abbrev pub page_checksum : Response → Io String
  page_checksum resp = do
    content ← context_io "cannot read body of the response" (read_all (n.stream resp.body))
    lift (checked_sum (before_blank content))

  unfoldable pub download_checksum : (license_key : String) → Io String
  download_checksum license_key = do
    resp ←
        context_io "cannot fetch checksum page"
          (do_request n (maxmind_request license_key "tar.gz.sha256"))
    flushing resp.body (page_checksum resp)

  -- The request, after the file was created.
  abbrev pub request_archive : (license_key : String) → Io Response
  request_archive license_key = do
    context_io "cannot create an archive file" (create n archive_name)
    context_io "cannot download an archive" (do_request n (maxmind_request license_key "tar.gz"))

  abbrev pub body_chunks : Response → List String
  body_chunks resp = chunks (n.read_sizes resp.body) (n.stream resp.body).content

  -- After the copy: the end of the pipe, and the error of the goroutine.
  abbrev pub copy_archive : Response → Pipe → Io String
  copy_archive resp p =
      let s = n.stream resp.body in
      piped s.failure p.stopped p.file (n.kept archive_name p.file) (n.sha256 s.content)

  -- The copy through the pipe, if it ends.
  abbrev pub pipe_copied : Response → Option Pipe → Disk → Option (Result String × Disk)
  pipe_copied resp none d = none
  pipe_copied resp (some p) d = some (flushing resp.body (copy_archive resp p) d)

  -- With the response, or without one.
  unfoldable pub archive_received : Result Response × Disk → Option (Result String × Disk)
  unfolding chunks write_chunks
  archive_received (err e, d) = some (err e, d)
  archive_received (ok resp, d) =
      pipe_copied resp (write_chunks n.chunk_error (body_chunks resp) new_pipe) d

  unfoldable pub download_archive : (license_key : String) → Disk → Option (Result String × Disk)
  unfolding archive_received
  download_archive license_key d = archive_received (request_archive license_key d)

  abbrev pub stored : String → Disk → Stream
  stored file d = record { content = or_empty (lookup file d.files); failure = none }

  abbrev pub opened : Option Err → String → Io Stream
  opened none file d = (ok (stored file d), d)
  opened (some e) file d = (err e, d)

  -- os.Open.
  abbrev pub open_file : String → Io Stream
  open_file file = opened (n.open_error file) file

  -- The loop over the headers of the archive.
  unfoldable pub extract_loop : List (Result TarEntry) → Io Unit
  unfolding copy_response
  extract_loop [] = fail no_file
  extract_loop (err e ∷ es) = fail (wrap "cannot extract a header" e)
  extract_loop (ok t ∷ es) =
      let rest = extract_loop es in
      if not (t.linkname == "") || t.is_dir
      then rest
      else if n.upper_ext t.name == ".MMDB"
      then context_io "cannot copy into a database file"
          (copy_response n maxmind_base_file_name t.data_of)
      else rest

  -- From gzip.NewReader on.
  abbrev pub unpack_archive : Stream → Io Unit
  unpack_archive archive = do
    tar ← context_io "cannot create a gzip reader" (lift (n.gunzip archive))
    extract_loop (n.read_tar tar)

  unfoldable pub extract_archive : Io Unit
  extract_archive = do
    archive ← context_io "cannot open archive" (open_file archive_name)
    context_io "cannot create a file for a database" (create n maxmind_base_file_name)
    λ d. removed_after archive_name (unpack_archive archive d)

  -- After the archive: the comparison and the extraction.
  abbrev pub compared : (expected actual : String) → Io Unit
  compared expected actual =
      if not (n.equal_fold expected actual)
      then fail (
          message (
            String.◌++◌ "checksum mismatch. expected="
              (String.◌++◌ expected (String.◌++◌ ", actual=" actual))))
      else context_io "cannot extract archive" extract_archive

  abbrev pub finish : String → Result String × Disk → Result (Unit {0}) × Disk
  finish expected x = after (archive_context x) (λ actual. compared expected actual)

  abbrev pub checksum_received :
      (license_key : String) → Result String × Disk → Option (Result (Unit {0}) × Disk)
  checksum_received key (err e, d) = some (err e, d)
  checksum_received key (ok expected, d) = Option.map (finish expected) (download_archive key d)

  unfoldable pub download_maxmind :
      (license_key : String) → Disk → Option (Result (Unit {0}) × Disk)
  unfolding download_checksum download_archive extract_archive
  download_maxmind key d =
      checksum_received key (wrapped "cannot download a checksum" (download_checksum key d))
