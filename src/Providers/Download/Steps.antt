-- ===== src/Providers/Download/Steps.antt =====
-- When the steps of the downloads of providers/ succeed.
use topographer.Base.{string_eq, ℕ, ◌≡◌, refl, sym, ap, ◌∙◌, String, Option, none, some}
use topographer.Base.Assoc.{insert}
use topographer.Errors.{Err, wrap, Result, ok, err, ok-injective}
use topographer.Providers.Download.{
  Stream, DownloadEnv, Disk, Io, after, wrapped, flushed_after, removed_after, remove_file, lift,
  read_all, created, create, read_end, copied, copy_error, copy_response, hashed_copy_response,
}

-- The computation succeeds with the value and leaves the directory.
abbrev pub Succeeds : {A : Type 0} → Result A × Disk → A → Disk → Type 0
Succeeds x a d = x ≡ (ok a, d)

pub err_fails : {A : Type 0} (e : Err) (d : Disk) (a : A) (d' : Disk) → Succeeds (err e, d) a d' → ⊥
err_fails e d a d' h = cc

pub after-Succeeds :
    {A B : Type 0} (x : Result A × Disk) (next : A → Io B) (b : B) (d' : Disk)
    → Succeeds (after x next) b d'
    → (a : A) × (d : Disk) × Succeeds x a d × Succeeds (next a d) b d'
after-Succeeds (ok a, d) next b d' h = (a, d, refl, h)
after-Succeeds (err e, d) next b d' h = absurd (err_fails e d b d' h)

pub wrapped-Succeeds :
    {A : Type 0} (s : String) (x : Result A × Disk) (a : A) (d : Disk)
    → Succeeds (wrapped s x) a d
    → Succeeds x a d
wrapped-Succeeds s (ok a, d) b d' h = h
wrapped-Succeeds s (err e, d) b d' h = absurd (err_fails (wrap s e) d b d' h)

pub lift-Succeeds :
    {A : Type 0} (r : Result A) (d : Disk) (a : A) (d' : Disk)
    → Succeeds (lift r d) a d'
    → (r ≡ ok a) × (d ≡ d')
lift-Succeeds (ok a) d b d' h =
    (ap (λ (x : Result _ × Disk). x.0) h, ap (λ (x : Result _ × Disk). x.1) h)
lift-Succeeds (err e) d b d' h = absurd (err_fails e d b d' h)

pub flushed-Succeeds :
    {A : Type 0} (b : ℕ) (x : Result A × Disk) (a : A) (d' : Disk)
    → Succeeds (flushed_after b x) a d'
    → (d : Disk) × Succeeds x a d × (d.files ≡ d'.files)
flushed-Succeeds b (r, d) a d' h = (
  d,
  ap (λ r. (r, d)) (ap (λ (x : Result _ × Disk). x.0) h),
  ap (λ (x : Result _ × Disk). x.1.files) h,
)

pub removed-Succeeds :
    (name : String) (x : Result (Unit {0}) × Disk) (d' : Disk)
    → Succeeds (removed_after name x) tt d'
    → (d : Disk) × Succeeds x tt d × (d'.files ≡ remove_file name d.files)
removed-Succeeds name (r, d) d' h = (
  d,
  ap (λ r. (r, d)) (ap (λ (x : Result (Unit {0}) × Disk). x.0) h),
  sym (ap (λ (x : Result (Unit {0}) × Disk). x.1.files) h),
)

read_end-ok : (o : Option Err) (s t : String) → read_end o s ≡ ok t → s ≡ t
read_end-ok none s t h = ok-injective h
read_end-ok (some e) s t h = cc

pub read_all-Succeeds :
    (s : Stream) (d : Disk) (t : String) (d' : Disk)
    → Succeeds (read_all s d) t d'
    → (s.content ≡ t) × (d ≡ d')
read_all-Succeeds s d t d' h =
    let (e, same) = lift-Succeeds (read_end s.failure s.content) d t d' h in
    (read_end-ok s.failure s.content t e, same)

created-Succeeds :
    (o : Option Err) (file : String) (d d' : Disk)
    → Succeeds (created o file d) tt d'
    → d'.files ≡ insert file "" d.files
created-Succeeds none file d d' h = sym (ap (λ (x : Result (Unit {0}) × Disk). x.1.files) h)
created-Succeeds (some e) file d d' h = absurd (err_fails e d tt d' h)

copied-Succeeds :
    (o : Option Err) (file content kept : String) (d d' : Disk)
    → Succeeds (copied o file content kept d) tt d'
    → d'.files ≡ insert file content d.files
copied-Succeeds none file content kept d d' h =
    sym (ap (λ (x : Result (Unit {0}) × Disk). x.1.files) h)
copied-Succeeds (some e) file content kept d d' h = absurd (err_fails e _ tt d' h)

module _ (n : DownloadEnv) where
  pub create-Succeeds :
      (file : String) (d d' : Disk)
      → Succeeds (create n file d) tt d'
      → d'.files ≡ insert file "" d.files
  create-Succeeds file = created-Succeeds (n.create_error file) file

  pub copy_response-Succeeds :
      (file : String) (s : Stream) (d d' : Disk)
      → Succeeds (copy_response n file s d) tt d'
      → d'.files ≡ insert file s.content d.files
  unfolding copy_response
  copy_response-Succeeds file s = copied-Succeeds (copy_error n file s) file s.content _

  pub hashed_copy-Succeeds :
      (hash : String → String) (file : String) (s : Stream) (d : Disk) (sum : String) (d' : Disk)
      → Succeeds (hashed_copy_response n hash file s d) sum d'
      → (sum ≡ hash s.content) × (d'.files ≡ insert file s.content d.files)
  unfolding hashed_copy_response
  hashed_copy-Succeeds hash file s d sum d' h =
      let (_, d1, copy, rest) = after-Succeeds (copy_response n file s d) _ sum d' h in
      let (e, same) = lift-Succeeds (ok (hash s.content)) d1 sum d' rest in
      (
        ok-injective (sym e),
        ap (λ (d : Disk). d.files) (sym same) ∙ copy_response-Succeeds file s d d1 copy,
      )
