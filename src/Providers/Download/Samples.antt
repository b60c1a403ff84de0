-- ===== src/Providers/Download/Samples.antt =====
-- The downloads of providers/ with a client that gives each request its body.
use topographer.Base.{
  ℕ, ◌≡◌, ◌↔◌, refl, String, true, false, Option, none, some, List, [], ◌∷◌, ◌==◌, string_eq,
  nat_eq, if◌then◌else◌,
}
use topographer.Base.Assoc.{lookup, insert}
use topographer.Errors.{Err, message, wrap, ok, err, ok-injective}
use topographer.HttpClient.{Response}
use topographer.Providers.Download.{
  Stream, DownloadEnv, Disk, has_checksum, hashed_copy_response, copy_response, remove_file,
}
use topographer.Providers.Download.Steps.{Succeeds}
use topographer.Providers.Download.Software77.{
  ipv4_file_name, ipv6_file_name, download_csv_checksum, download_csv_file, download_csv,
  download_software77, IsVerifiedCsv,
}
use topographer.Providers.Download.Csv.{download_software77-IsVerifiedCsv}
use topographer.Providers.Download.Dbip.{
  maxmind_base_file_name, is_dbip_url, first_sum, first_link, first_card, get_file_data,
  download_file, download_dbip,
}
use topographer.Providers.Download.Verified.{IsDbipDatabase, download_dbip-IsDbipDatabase}
use topographer.Providers.Download.Maxmind.{
  before_blank, download_checksum, request_archive, archive_received, download_archive,
  extract_loop, extract_archive, download_maxmind,
}
use topographer.Providers.Download.Archive.{IsMaxmindDatabase, download_maxmind-IsMaxmindDatabase}
use topographer.Providers.Download.Waits.{IsCut, download_maxmind-waits_iff}
use topographer.Providers.Download.Pipe.{chunks, write_chunks}
use topographer.Providers.Download.Ip2location.{
  ip2location_file_name, save_first, download_ip2location, IsIp2LocationDatabase,
  download_ip2location-IsIp2LocationDatabase,
}

abbrev sum32 : String
sum32 = "0123456789abcdef0123456789abcdef"

abbrev sum40 : String
sum40 = "0123456789abcdef0123456789abcdef01234567"

abbrev sum64 : String
sum64 = "0123456789abcdef0123456789abcdef0123456789abcdef0123456789abcdef"

abbrev whole : String → Stream
whole s = record { content = s; failure = none }

abbrev link : String
link = "https://download.db-ip.com/free/city.mmdb.gz"

-- The URL is the value of the second field of the query, or else of the first.
abbrev last_value : List (String × String) → String
last_value [] = ""
last_value (q ∷ []) = q.1
last_value (p ∷ q ∷ qs) = q.1

abbrev body_of : String → ℕ
body_of url =
    if url == "3" then 3 else if url == "10" then 3 else if url == "tar.gz.sha256" then 4 else 1

abbrev stream_of : ℕ → Stream
stream_of b =
    if b == 3
    then whole sum32
    else if b == 4
    then whole "0123456789abcdef0123456789abcdef0123456789abcdef0123456789abcdef  file"
    else whole "data"

abbrev sample_env : (chunk_error : String → String → Option Err) → DownloadEnv
sample_env fails = record {
  client = λ r. ok (record { status_code = 200; status = "200 OK"; body = body_of r.url });
  url_string = λ u. last_value u.query;
  stream = stream_of;
  gunzip = λ s. ok s;
  read_tar = λ s.
      ok (record { name = "c.mmdb"; linkname = ""; is_dir = false; data_of = whole "database" })
      ∷ [];
  read_zip = λ s. ok (record { name = "c.bin"; opened = ok (whole "database") } ∷ []);
  parse_html = λ s. ok (record { links = link ∷ []; texts = sum40 ∷ [] } ∷ []);
  create_error = λ f. none;
  open_error = λ f. none;
  write_error = λ f s. none;
  kept = λ f s. "";
  read_sizes = λ b. 1 ∷ [];
  chunk_error = fails;
  temp_file = ok "archive-zip-1";
  seek_error = none;
  stat_error = none;
  md5 = λ s. sum32;
  sha1 = λ s. sum40;
  sha256 = λ s. sum64;
  equal_fold = λ a b. a == b;
  trim_space = λ s. s;
  upper_ext = λ name. if name == "c.mmdb" then ".MMDB" else ".BIN";
}

abbrev env : DownloadEnv
env = sample_env (λ before chunk. none)

abbrev full_env : DownloadEnv
full_env = sample_env (λ before chunk. some (message "no space left on device"))

abbrev empty_disk : Disk
empty_disk = record { files = []; flushed = [] }

abbrev csv_disk : Disk
csv_disk = record {
  files = (ipv4_file_name, "data") ∷ (ipv6_file_name, "data") ∷ [];
  flushed = 3 ∷ 1 ∷ 3 ∷ 1 ∷ [];
}

csv_runs : Succeeds (download_software77 env true empty_disk) tt csv_disk
unfolding download_software77 download_csv download_csv_checksum download_csv_file
    hashed_copy_response copy_response has_checksum insert
csv_runs = refl

download_software77-IsVerifiedCsv_example :
    ((content : String) × (lookup ipv4_file_name csv_disk.files ≡ some content)
      × IsVerifiedCsv env content "1" "3")
    × ((content : String) × (lookup ipv6_file_name csv_disk.files ≡ some content)
        × IsVerifiedCsv env content "9" "10")
download_software77-IsVerifiedCsv_example =
    download_software77-IsVerifiedCsv env true empty_disk csv_disk csv_runs

abbrev dbip_disk : Disk
dbip_disk = record { files = (maxmind_base_file_name, "data") ∷ []; flushed = 1 ∷ 1 ∷ [] }

dbip_runs : Succeeds (download_dbip env empty_disk) tt dbip_disk
unfolding download_dbip get_file_data download_file first_card first_link first_sum is_dbip_url
    hashed_copy_response copy_response has_checksum insert
dbip_runs = refl

download_dbip-IsDbipDatabase_example :
    (content : String) × (lookup maxmind_base_file_name dbip_disk.files ≡ some content)
    × IsDbipDatabase env content
download_dbip-IsDbipDatabase_example =
    download_dbip-IsDbipDatabase env empty_disk dbip_disk dbip_runs

abbrev maxmind_disk : Disk
maxmind_disk = record { files = (maxmind_base_file_name, "database") ∷ []; flushed = 4 ∷ 1 ∷ [] }

maxmind_runs : download_maxmind env "key" empty_disk ≡ some (ok tt, maxmind_disk)
unfolding download_maxmind download_checksum download_archive archive_received chunks write_chunks
    extract_archive extract_loop before_blank copy_response has_checksum insert lookup remove_file
maxmind_runs = refl

download_maxmind-IsMaxmindDatabase_example :
    (content : String) × (lookup maxmind_base_file_name maxmind_disk.files ≡ some content)
    × IsMaxmindDatabase env "key" content
download_maxmind-IsMaxmindDatabase_example =
    download_maxmind-IsMaxmindDatabase env "key" empty_disk maxmind_disk maxmind_runs

-- The disk is full: the first of two chunks cannot be written. If the second one cannot, the error is returned.
maxmind_waits :
    (download_maxmind full_env "key" empty_disk ≡ none)
    × (download_archive
          (sample_env (λ before chunk.
            if before == "" then none else some (message "no space left on device")))
          "key"
          empty_disk
        ≡ some (
          err (wrap "cannot write to tar file" (message "no space left on device")),
          record { files = ("archive.tar.gz", "") ∷ []; flushed = 1 ∷ [] },
        ))
unfolding download_maxmind download_checksum download_archive archive_received chunks write_chunks
    before_blank has_checksum insert
maxmind_waits = (refl, refl)

download_maxmind-waits_iff_example : (download_maxmind full_env "key" empty_disk ≡ none) ↔ (
    (expected : String) × (d1 : Disk) × (resp : Response) × (d2 : Disk) × Succeeds
      (download_checksum full_env "key" empty_disk)
      expected
      d1
    × Succeeds (request_archive full_env "key" d1) resp d2
    × IsCut full_env resp)
download_maxmind-waits_iff_example = download_maxmind-waits_iff full_env "key" empty_disk

abbrev bin_disk : Disk
bin_disk = record { files = (ip2location_file_name, "database") ∷ []; flushed = 1 ∷ [] }

bin_runs : Succeeds (download_ip2location env "token" "code" empty_disk) tt bin_disk
unfolding download_ip2location save_first copy_response insert lookup remove_file
bin_runs = refl

temp_has_other_name :
    (temp : String) → env.temp_file ≡ ok temp → (temp == ip2location_file_name) ≡ false
temp_has_other_name temp h = rw (← ok-injective h) refl

download_ip2location-IsIp2LocationDatabase_example :
    (content : String) × (lookup ip2location_file_name bin_disk.files ≡ some content)
    × IsIp2LocationDatabase env "token" "code" content
download_ip2location-IsIp2LocationDatabase_example =
    download_ip2location-IsIp2LocationDatabase env "token" "code" empty_disk bin_disk
      temp_has_other_name bin_runs
