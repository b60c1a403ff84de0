-- ===== src/Providers/Download/Software77.antt =====
-- Download of providers/software77.go. Each of its two goroutines works on a file of its own, so that
-- they are run one after the other; which of two errors is the first in the channel is an argument.
use Prim.Native.String
use topographer.Base.{ℕ, ◌≡◌, String, Bool, true, not, List, [], ◌∷◌, string_eq, if◌then◌else◌}
use topographer.Errors.{Err, message, Result, ok, err}
use topographer.HttpClient.{Response}
use topographer.Providers.Web.{WebRequest}
use topographer.Providers.Download.{
  Stream, DownloadEnv, Io, ◌>>=◌, ◌>>◌, context_io, flushing, lift, fail, done, do_request,
  read_all, create, hashed_copy_response, has_checksum,
}

abbrev pub ipv4_file_name : String
ipv4_file_name = "ipv4.csv"

abbrev pub ipv6_file_name : String
ipv6_file_name = "ipv6.csv"

module _ (n : DownloadEnv) where
  -- `buildURL`.
  abbrev pub software77_request : String → WebRequest
  software77_request param = record {
    url = n.url_string (record {
      scheme = "https";
      host = "software77.net";
      path = "/geo-ip/";
      query = ("DL", param) ∷ [];
    });
    headers = [];
  }

  abbrev pub checked_sum : String → Io String
  checked_sum content =
      if not (has_checksum 32 content)
      then fail (message (String.◌++◌ "incorrect checksum: " content))
      else lift (ok content)

  abbrev pub page_checksum : Response → Io String
  page_checksum resp = do
    content ← context_io "cannot read from response body" (read_all (n.stream resp.body))
    checked_sum (n.trim_space content)

  unfoldable pub download_csv_checksum : String → Io String
  download_csv_checksum md5_param = do
    resp ← do_request n (software77_request md5_param)
    flushing resp.body (page_checksum resp)

  unfoldable pub download_csv_file : String → Io ℕ
  download_csv_file param = do resp ← do_request n (software77_request param); lift (ok resp.body)

  abbrev pub compared : String → String → Io Unit
  compared expected actual =
      if not (n.equal_fold expected actual)
      then fail (
          message (
            String.◌++◌ "checksum mismatch. expected="
              (String.◌++◌ expected (String.◌++◌ ", actual=" actual))))
      else done

  -- From gzip.NewReader on.
  abbrev pub unpack_csv : (file expected : String) → ℕ → Io Unit
  unpack_csv file expected source = do
    reader ← context_io "cannot create a gzip reader" (lift (n.gunzip (n.stream source)))
    context_io "cannot create a target filename" (create n file)
    actual ←
        context_io "cannot create a copy to a target file"
          (hashed_copy_response n n.md5 file reader)
    compared expected actual

  -- One goroutine; its result is the error that it sends, if any.
  unfoldable pub download_csv : (file download_param md5_param : String) → Io Unit
  unfolding download_csv_checksum download_csv_file
  download_csv file download_param md5_param = do
    expected ← context_io "cannot download a checksum" (download_csv_checksum md5_param)
    source ← context_io "cannot download a file" (download_csv_file download_param)
    flushing source (unpack_csv file expected source)

  -- The errors in the channel, in the order of sending.
  abbrev pub errors_sent : (v6_first : Bool) → Result (Unit {0}) → Result (Unit {0}) → List Err
  errors_sent v6_first (ok _) (ok _) = []
  errors_sent v6_first (err e) (ok _) = e ∷ []
  errors_sent v6_first (ok _) (err f) = f ∷ []
  errors_sent v6_first (err e) (err f) = if v6_first then f ∷ e ∷ [] else e ∷ f ∷ []

  -- The `select` after both have ended.
  abbrev pub received_error : List Err → Result (Unit {0})
  received_error [] = ok tt
  received_error (e ∷ es) = err e

  unfoldable pub download_software77 : (v6_first : Bool) → Io Unit
  unfolding download_csv
  download_software77 v6_first d =
      let (v4, d1) = download_csv ipv4_file_name "1" "3" d in
      let (v6, d2) = download_csv ipv6_file_name "9" "10" d1 in
      (received_error (errors_sent v6_first v4 v6), d2)

  -- The file has the unpacked body of the response to the request with one parameter, and its MD5 sum,
  -- up to the case of letters, is the trimmed body of the one to the request with the other.
  abbrev pub IsVerifiedCsv : (content download_param md5_param : String) → Type 0
  IsVerifiedCsv content download_param md5_param =
      (page : Response) × (source : Response) × (reader : Stream) × (n.client
          (software77_request md5_param)
        ≡ ok page)
      × (n.client (software77_request download_param) ≡ ok source)
      × (n.gunzip (n.stream source.body) ≡ ok reader)
      × (reader.content ≡ content)
      × (has_checksum 32 (n.trim_space (n.stream page.body).content) ≡ true)
      × (n.equal_fold (n.trim_space (n.stream page.body).content) (n.md5 content) ≡ true)
