-- ===== src/Providers/Download.antt =====
-- What the downloads of providers/ share: the effects of reading a response and of writing a file, and
-- providers/utils.go. A body is named by a number; what can be read from it, os.Create, the writes to
-- files, the hash functions and the decoders are arguments.
pub mod Steps
pub mod Csv
pub mod Software77
pub mod Dbip
pub mod Listed
pub mod Pipe
pub mod Maxmind
pub mod Ip2location
pub mod Verified
pub mod Extract
pub mod Archive
pub mod Waits
mod Samples
use Prim.Native.Char.{Char, code}
use Prim.Native.String
use topographer.Base.{
  ℕ, zero, suc, String, Bool, true, false, Option, none, some, List, [], ◌∷◌, ◌++◌, ◌&&◌, ◌||◌, leb,
  ◌==◌, string_eq, if◌then◌else◌,
}
use topographer.Base.Assoc.{insert}
use topographer.Errors.{Err, message, wrap, Result, ok, err}
use topographer.HttpClient.{Response}
use topographer.Providers.Web.{Client, Url, WebRequest}

-- A reader: the bytes that it gives, and the error that it ends with instead of the end of the file.
pub record Stream : Type 0 where
  pub content : String
  pub failure : Option Err

-- The header of an entry of a tar archive, and what can be read from the archive then.
pub record TarEntry : Type 0 where
  pub name : String
  pub linkname : String
  pub is_dir : Bool
  pub data_of : Stream

-- An entry of a zip archive, with what opening it gives.
pub record ZipEntry : Type 0 where
  pub name : String
  pub opened : Result Stream

-- What the XPath queries of dbip_lite.go find in one card of a page: the links of `free_download_link`, and
-- the small texts.
pub record Card : Type 0 where
  pub links : List String
  pub texts : List String

-- What other packages do. `read_tar` gives the entries up to the end, or up to an error; `kept` is the part
-- of a content that is in the file when a copy fails. `read_sizes` are the sizes, less one, of the
-- reads of a body, and `chunk_error` is the error of a write of a chunk after what the archive file has.
pub record DownloadEnv : Type 0 where
  pub client : Client
  pub url_string : Url → String
  pub stream : ℕ → Stream
  pub gunzip : Stream → Result Stream
  pub read_tar : Stream → List (Result TarEntry)
  pub read_zip : String → Result (List ZipEntry)
  pub parse_html : Stream → Result (List Card)
  pub create_error : String → Option Err
  pub open_error : String → Option Err
  pub write_error : String → String → Option Err
  pub kept : String → String → String
  pub read_sizes : ℕ → List ℕ
  pub chunk_error : String → String → Option Err
  pub temp_file : Result String
  pub seek_error : Option Err
  pub stat_error : Option Err
  pub md5 : String → String
  pub sha1 : String → String
  pub sha256 : String → String
  pub equal_fold : String → String → Bool
  pub trim_space : String → String
  pub upper_ext : String → String

-- The files of the directory, and the bodies that were flushed.
pub record Disk : Type 0 where
  pub files : List (String × String)
  pub flushed : List ℕ

-- A computation that may fail, and that works on the directory all the same.
abbrev pub Io : Type 0 → Type 0
Io A = Disk → Result A × Disk

abbrev pub after : {A B : Type 0} → Result A × Disk → (A → Io B) → Result B × Disk
after (ok a, d) next = next a d
after (err e, d) next = (err e, d)

infixl 5 ◌>>=◌
abbrev pub ◌>>=◌ : {A B : Type 0} → Io A → (A → Io B) → Io B
m >>= next = λ d. after (m d) next

infixl 5 ◌>>◌
abbrev pub ◌>>◌ : {A B : Type 0} → Io A → Io B → Io B
m >> next = m >>= λ _. next

abbrev pub lift : {A : Type 0} → Result A → Io A
lift r d = (r, d)

abbrev pub fail : {A : Type 0} → Err → Io A
fail e = lift (err e)

abbrev pub done : Io Unit
done = lift (ok tt)

abbrev pub wrapped : {A : Type 0} → String → Result A × Disk → Result A × Disk
wrapped s (ok a, d) = (ok a, d)
wrapped s (err e, d) = (err (wrap s e), d)

-- `if err != nil { return fmt.Errorf("text: %w", err) }`.
abbrev pub context_io : {A : Type 0} → String → Io A → Io A
context_io s m d = wrapped s (m d)

abbrev pub flushed_after : {A : Type 0} → ℕ → Result A × Disk → Result A × Disk
flushed_after b (r, d) = (r, record d { flushed = d.flushed ++ b ∷ [] })

-- `defer flushResponse(body)`.
abbrev pub flushing : {A : Type 0} → ℕ → Io A → Io A
flushing b m d = flushed_after b (m d)

-- os.Remove.
unfoldable pub remove_file : String → List (String × String) → List (String × String)
remove_file name [] = []
remove_file name ((file, s) ∷ files) =
    let rest = remove_file name files in if file == name then rest else (file, s) ∷ rest

abbrev pub removed_after : {A : Type 0} → String → Result A × Disk → Result A × Disk
removed_after name (r, d) = (r, record d { files = remove_file name d.files })

abbrev hex_digit : ℕ → Bool
hex_digit n = (leb 48 n && leb n 57) || (leb 65 n && leb n 70) || (leb 97 n && leb n 102)

-- The text goes on with `n` hexadecimal digits.
abbrev hex_run : ℕ → String → Bool
hex_run zero s = true
hex_run (suc n) String.[] = false
hex_run (suc n) (String.◌∷◌ c s) = hex_digit (code c) && hex_run n s

-- The regular expression `(?i)[0-9a-f]{n}`, which may match anywhere in the text.
unfoldable pub has_checksum : ℕ → String → Bool
has_checksum n String.[] = hex_run n ""
has_checksum n (String.◌∷◌ c s) = hex_run n (String.◌∷◌ c s) || has_checksum n s

abbrev pub read_end : Option Err → String → Result String
read_end none s = ok s
read_end (some e) s = err e

-- `ioutil.ReadAll` of a reader.
abbrev pub read_all : Stream → Io String
read_all s = lift (read_end s.failure s.content)

-- What os.Create leaves behind, given its error.
abbrev pub created : Option Err → String → Disk → Result (Unit {0}) × Disk
created none file d = (ok tt, record d { files = insert file "" d.files })
created (some e) file d = (err e, d)

-- What a copy leaves behind, given its error: all of the content, or the part of it that is kept.
abbrev pub copied : Option Err → (file content kept : String) → Disk → Result (Unit {0}) × Disk
copied none file content kept d = (ok tt, record d { files = insert file content d.files })
copied (some e) file content kept d = (err e, record d { files = insert file kept d.files })

module _ (n : DownloadEnv) where
  abbrev pub do_request : WebRequest → Io Response
  do_request req = lift (n.client req)

  abbrev pub create : String → Io Unit
  create file = created (n.create_error file) file

  -- The error of a copy: of the write, or else of the reader.
  abbrev pub copy_error : String → Stream → Option Err
  copy_error file s = elim (n.write_error file s.content) [ some e ↦ some e | none ↦ s.failure ]

  -- `copyResponse` and `io.Copy` into a file that was created.
  unfoldable pub copy_response : String → Stream → Io Unit
  copy_response file s = copied (copy_error file s) file s.content (n.kept file s.content)

  -- `hashedCopyResponse`: the copy, and the hash of all that was read, in hexadecimal digits.
  unfoldable pub hashed_copy_response : (String → String) → String → Stream → Io String
  unfolding copy_response
  hashed_copy_response hash file s = copy_response file s >> lift (ok (hash s.content))
