-- ===== src/Providers/Download/Waits.antt =====
-- Whether a download of providers/maxmind_lite.go returns.
use mathlib.Core.Option
use topographer.Base.{◌≡◌, ◌↔◌, refl, ap, ◌∙◌, String, Option, none, some, string_eq}
use topographer.Errors.{Result, ok, err}
use topographer.HttpClient.{Response}
use topographer.Providers.Download.{DownloadEnv, Disk, wrapped}
use topographer.Providers.Download.Steps.{Succeeds}
use topographer.Providers.Download.Maxmind.{
  download_checksum, request_archive, body_chunks, pipe_copied, archive_received, download_archive,
  finish, checksum_received, download_maxmind,
}
use topographer.Providers.Download.Pipe.{Pipe, some-none, IsCutShort, write_chunks-waits}

module _ (n : DownloadEnv) where
  pipe_copied-none :
      (resp : Response) (o : Option Pipe) (d : Disk) → pipe_copied n resp o d ≡ none → o ≡ none
  pipe_copied-none resp none d h = refl
  pipe_copied-none resp (some p) d h = absurd (some-none h)

  -- The write of a chunk of the body fails, and the chunk is not the last one.
  abbrev pub IsCut : Response → Type 0
  IsCut resp = IsCutShort n.chunk_error "" (body_chunks n resp)

  -- A download of MaxMind never returns exactly when the checksum was downloaded, the request for the
  -- archive has a response, and its body comes in chunks of which one that is not the last cannot be
  -- written to the archive file: the reader of the pipe has then stopped with more chunks to come.
  pub download_maxmind-waits_iff :
      (key : String) (d : Disk)
      → (download_maxmind n key d ≡ none) ↔ (
          (expected : String) × (d1 : Disk) × (resp : Response) × (d2 : Disk) × Succeeds
            (download_checksum n key d)
            expected
            d1
          × Succeeds (request_archive n key d1) resp d2
          × IsCut resp)
  unfolding download_maxmind download_archive archive_received
  download_maxmind-waits_iff key d = (
    waits_of (download_checksum n key d),
    λ (expected, d1, resp, d2, sum, req, stops).
        ap (λ x. checksum_received n key (wrapped "cannot download a checksum" x)) sum
        ∙ (ap (λ x. Option.map (finish n expected) (archive_received n x)) req
            ∙ ap (λ o. Option.map (finish n expected) (pipe_copied n resp o d2))
                ((write_chunks-waits n.chunk_error (body_chunks n resp)).1 stops)),
  )
    where
      map_none :
          (expected : String) (x : Option (Result String × Disk))
          → Option.map (finish n expected) x ≡ none
          → x ≡ none
      map_none expected none h = refl
      map_none expected (some y) h = absurd (some-none h)

      received_none :
          (x : Result Response × Disk)
          → archive_received n x ≡ none
          → (resp : Response) × (d2 : Disk) × Succeeds x resp d2 × IsCut resp
      received_none (err e, d) h = absurd (some-none h)
      received_none (ok resp, d) h = (
        resp,
        d,
        refl,
        (write_chunks-waits n.chunk_error (body_chunks n resp)).0 (pipe_copied-none resp _ d h),
      )

      waits_of :
          (x : Result String × Disk)
          → checksum_received n key (wrapped "cannot download a checksum" x) ≡ none
          → (expected : String) × (d1 : Disk) × (resp : Response) × (d2 : Disk) × Succeeds x
              expected d1
            × Succeeds (request_archive n key d1) resp d2
            × IsCut resp
      waits_of (err e, d1) h = absurd (some-none h)
      waits_of (ok expected, d1) h =
          let (resp, d2, req, stops) =
            received_none (request_archive n key d1)
              (map_none expected (download_archive n key d1) h) in
          (expected, d1, resp, d2, refl, req, stops)
