-- ===== src/Providers/Download/Dbip.antt =====
-- Download of providers/dbip_lite.go: the link and the checksum on a page, and the file behind the link.
use Prim.Native.Char.{code}
use Prim.Native.String
use topographer.Base.{
  String, Bool, false, not, ◌||◌, Option, none, some, List, [], ◌∷◌, nat_beq, ◌==◌, nat_eq,
  string_eq, if◌then◌else◌,
}
use topographer.Base.Text.{contains}
use topographer.Errors.{Err, message, Result, ok, err}
use topographer.HttpClient.{Response}
use topographer.Providers.Decimal.{itoa}
use topographer.Providers.Web.{WebRequest}
use topographer.Providers.Download.{
  Card, DownloadEnv, Io, ◌>>=◌, ◌>>◌, context_io, flushing, lift, fail, done, do_request, create,
  hashed_copy_response, has_checksum,
}

abbrev pub maxmind_base_file_name : String
maxmind_base_file_name = "database.mmdb"

abbrev behind : String → String → Option String
behind String.[] s = some s
behind (String.◌∷◌ c p) String.[] = none
behind (String.◌∷◌ c p) (String.◌∷◌ d s) =
    let rest = behind p s in if nat_beq (code c) (code d) then rest else none

abbrev first_line : String → String
first_line String.[] = ""
first_line (String.◌∷◌ c s) =
    let rest = first_line s in if nat_beq (code c) 10 then "" else String.◌∷◌ c rest

-- After the prefix, ".mmdb.gz" comes later in the line.
abbrev has_archive : Option String → Bool
has_archive none = false
has_archive (some s) = contains (first_line s) ".mmdb.gz"

-- `dbipLiteUrlRegexp`, which may match anywhere in the text.
unfoldable pub is_dbip_url : String → Bool
unfolding contains
is_dbip_url String.[] = false
is_dbip_url (String.◌∷◌ c s) =
    has_archive (behind "http://download.db-ip.com/free/" (String.◌∷◌ c s))
    || has_archive (behind "https://download.db-ip.com/free/" (String.◌∷◌ c s))
    || is_dbip_url s

abbrev nothing_on_page : Err
nothing_on_page = message "could not find anything on a page"

-- The innermost loop: the first text with a checksum.
unfoldable pub first_sum : List String → Option String
unfolding has_checksum
first_sum [] = none
first_sum (t ∷ ts) = let rest = first_sum ts in if has_checksum 40 t then some t else rest

abbrev found_sum : String → Option String → Option (String × String) → Option (String × String)
found_sum url none rest = rest
found_sum url (some t) rest = some (url, t)

-- The loop over the links of a card.
unfoldable pub first_link : List String → List String → Option (String × String)
unfolding is_dbip_url first_sum
first_link texts [] = none
first_link texts (url ∷ urls) =
    let rest = first_link texts urls in
    if not (is_dbip_url url) then rest else found_sum url (first_sum texts) rest

abbrev or_next : Option (String × String) → Option (String × String) → Option (String × String)
or_next (some found) rest = some found
or_next none rest = rest

unfoldable pub first_card : List Card → Option (String × String)
unfolding first_link
first_card [] = none
first_card (c ∷ cs) = or_next (first_link c.texts c.links) (first_card cs)

module _ (n : DownloadEnv) where
  abbrev pub page_request : WebRequest
  page_request = record { url = "https://db-ip.com/db/download/ip-to-city-lite"; headers = [] }

  abbrev pub url_request : String → WebRequest
  url_request url = record { url = url; headers = [] }

  abbrev pub on_page : Option (String × String) → Result (String × String)
  on_page none = err nothing_on_page
  on_page (some found) = ok found

  abbrev pub page_data : Response → Io (String × String)
  page_data resp = do
    cards ← context_io "cannot parse html" (lift (n.parse_html (n.stream resp.body)))
    lift (on_page (first_card cards))

  -- A response with another status is not flushed.
  abbrev pub page_status : Response → Io (String × String)
  page_status resp =
      if not (resp.status_code == 200)
      then fail (message (String.◌++◌ "unexpected http response code: " (itoa resp.status_code)))
      else flushing resp.body (page_data resp)

  unfoldable pub get_file_data : Io (String × String)
  get_file_data = do
    resp ← context_io "cannot request a download page" (do_request n page_request)
    page_status resp

  abbrev pub compared : String → String → Io Unit
  compared checksum sum =
      if not (n.equal_fold checksum sum)
      then fail (
          message (
            String.◌++◌ "checksum mismatch. expected "
              (String.◌++◌ sum (String.◌++◌ ", got " checksum))))
      else done

  -- From gzip.NewReader on.
  abbrev pub unpack_file : String → Response → Io Unit
  unpack_file sum resp = do
    reader ← context_io "cannot create a gzip reader" (lift (n.gunzip (n.stream resp.body)))
    context_io "cannot open a target file" (create n maxmind_base_file_name)
    checksum ←
        context_io "cannot save a file on filesystem"
          (hashed_copy_response n n.sha1 maxmind_base_file_name reader)
    compared checksum sum

  unfoldable pub download_file : String → String → Io Unit
  download_file url sum = do
    resp ← context_io "cannot download a file" (do_request n (url_request url))
    flushing resp.body (unpack_file sum resp)

  unfoldable pub download_dbip : Io Unit
  unfolding get_file_data download_file
  download_dbip = do
    found ← context_io "cannot parse html page" get_file_data
    context_io "cannot download a file" (download_file found.0 found.1)
