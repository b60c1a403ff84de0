-- ===== src/Providers/Download/Pipe.antt =====
-- The pipe of downloadArchive in providers/maxmind_lite.go: its two ends, chunk by chunk. The goroutine that
-- writes the archive file reads from the pipe until a write fails, and then waits at the channel of errors,
-- which downloadArchive reads only after the last chunk.
use Prim.Native.String
use topographer.Base.{
  ℕ, zero, suc, ◌≡◌, ◌↔◌, refl, sym, ap, ◌∙◌, String, Option, Option-cases, none, some, List, [],
  ◌∷◌, ◌++◌, inl, inr,
}
use topographer.Base.Append.{append_nil, append_cons, append_nil_right, append_assoc}
use topographer.Errors.{Err}

-- The first bytes, and the rest.
abbrev pub cut_at : ℕ → String → String × String
cut_at zero s = ("", s)
cut_at (suc n) String.[] = ("", "")
cut_at (suc n) (String.◌∷◌ c s) = let (a, b) = cut_at n s in (String.◌∷◌ c a, b)

-- A body as its reads give it: the sizes are those of the reads, less one, and the last read gives the rest.
unfoldable pub chunks : List ℕ → String → List String
chunks sizes String.[] = []
chunks [] (String.◌∷◌ c s) = String.◌∷◌ c s ∷ []
chunks (n ∷ sizes) (String.◌∷◌ c s) = let (a, b) = cut_at n s in String.◌∷◌ c a ∷ chunks sizes b

-- What the file has, and the error with which the goroutine has stopped reading, if it has.
pub record Pipe : Type 0 where
  pub file : String
  pub stopped : Option Err

abbrev pub new_pipe : Pipe
new_pipe = record { file = ""; stopped = none }

-- The end of a write to the file.
abbrev pub written : Option Err → String → Pipe → Pipe
written (some e) chunk p = record p { stopped = some e }
written none chunk p = record p { file = String.◌++◌ p.file chunk }

-- `fails` is the error of a write of a chunk after what the file has.
module _ (fails : String → String → Option Err) where
  -- The goroutine reads a chunk and writes it.
  abbrev pub read_chunk : String → Pipe → Pipe
  read_chunk chunk p = written (fails p.file chunk) chunk p

  -- A write to the pipe waits for a read: `none` if the reader has stopped.
  abbrev pub write_chunk : String → Pipe → Option Pipe
  write_chunk chunk p = elim p.stopped [ some e ↦ none | none ↦ some (read_chunk chunk p) ]

  -- The copy into the pipe.
  unfoldable pub write_chunks : List String → Pipe → Option Pipe
  write_chunks [] p = some p
  write_chunks (c ∷ cs) p = elim (write_chunk c p) [ none ↦ none | some p' ↦ write_chunks cs p' ]

abbrev pub joined : List String → String
joined [] = ""
joined (c ∷ cs) = String.◌++◌ c (joined cs)

cut_at-joins : (n : ℕ) (s : String) → String.◌++◌ (cut_at n s).0 (cut_at n s).1 ≡ s
cut_at-joins zero s = append_nil s
cut_at-joins (suc n) String.[] = append_nil ""
cut_at-joins (suc n) (String.◌∷◌ c s) =
    append_cons c (cut_at n s).0 (cut_at n s).1 ∙ ap (λ t. String.◌∷◌ c t) (cut_at-joins n s)

-- The chunks of a body make it up, whatever the sizes of the reads.
chunks_join : (sizes : List ℕ) (s : String) → joined (chunks sizes s) ≡ s
unfolding chunks
chunks_join [] String.[] = refl
chunks_join (n ∷ sizes) String.[] = refl
chunks_join [] (String.◌∷◌ c s) = append_nil_right (String.◌∷◌ c s)
chunks_join (n ∷ sizes) (String.◌∷◌ c s) =
    ap (λ t. String.◌++◌ (String.◌∷◌ c (cut_at n s).0) t) (chunks_join sizes (cut_at n s).1)
    ∙ (append_cons c (cut_at n s).0 (cut_at n s).1 ∙ ap (λ t. String.◌∷◌ c t) (cut_at-joins n s))

abbrev file_of : Option Pipe → String
file_of none = ""
file_of (some p) = p.file

pub some-none : {A : Type 0} {x : A} → some x ≡ none → ⊥
some-none h = cc

module _ (fails : String → String → Option Err) where
  -- Each chunk is written to the file, after what it has.
  abbrev pub IsWritten : String → List String → Type 0
  IsWritten file [] = Unit
  IsWritten file (c ∷ cs) = (fails file c ≡ none) × IsWritten (String.◌++◌ file c) cs

  -- The write of a chunk that is not the last one fails, the first one that does.
  abbrev pub IsCutShort : String → List String → Type 0
  IsCutShort file cs =
      (before : List String) × (c : String) × (d : String) × (rest : List String) × (e : Err) × (cs
        ≡ before ++ c ∷ d ∷ rest)
      × IsWritten file before
      × (fails (String.◌++◌ file (joined before)) c ≡ some e)

  abbrev pipe : String → Pipe
  pipe file = record { file = file; stopped = none }

  -- A chunk that fails stops the reader, so that only an empty rest gets through.
  after_failure :
      (file c : String) (cs : List String) (e : Err)
      → fails file c ≡ some e
      → write_chunks fails (c ∷ cs) (pipe file)
        ≡ write_chunks fails cs (record { file = file; stopped = some e })
  unfolding write_chunks
  after_failure file c cs e f = ap (λ o. write_chunks fails cs (written o c (pipe file))) f

  after_write :
      (file c : String) (cs : List String)
      → fails file c ≡ none
      → write_chunks fails (c ∷ cs) (pipe file) ≡ write_chunks fails cs (pipe (String.◌++◌ file c))
  unfolding write_chunks
  after_write file c cs f = ap (λ o. write_chunks fails cs (written o c (pipe file))) f

  write_chunks-IsCutShort :
      (file : String) (cs : List String)
      → write_chunks fails cs (pipe file) ≡ none
      → IsCutShort file cs
  unfolding write_chunks
  write_chunks-IsCutShort file [] h = absurd (some-none h)
  write_chunks-IsCutShort file (c ∷ cs) h = elim (Option-cases (fails file c)) [
    | inl f ↦
        let (before, x, d, rest, e, same, done, failed) =
          write_chunks-IsCutShort (String.◌++◌ file c) cs (sym (after_write file c cs f) ∙ h) in
        (
          c ∷ before,
          x,
          d,
          rest,
          e,
          ap (λ l. c ∷ l) same,
          (f, done),
          ap (λ s. fails s x) (append_assoc file c (joined before)) ∙ failed,
        )
    | inr (e, f) ↦ stops cs e f (sym (after_failure file c cs e f) ∙ h)
  ]
    where
      stops :
          {file c : String} (cs : List String) (e : Err)
          → fails file c ≡ some e
          → write_chunks fails cs (record { file = file; stopped = some e }) ≡ none
          → IsCutShort file (c ∷ cs)
      stops [] e f h = absurd (some-none h)
      stops {file} {c} (d ∷ rest) e f h =
          ([], c, d, rest, e, refl, tt, ap (λ s. fails s c) (append_nil_right file) ∙ f)

  blocks_after :
      (file : String) (before : List String) (c d : String) (rest : List String) (e : Err)
      → IsWritten file before
      → fails (String.◌++◌ file (joined before)) c ≡ some e
      → write_chunks fails (before ++ c ∷ d ∷ rest) (pipe file) ≡ none
  unfolding write_chunks
  blocks_after file [] c d rest e done f =
      after_failure file c (d ∷ rest) e (ap (λ s. fails s c) (sym (append_nil_right file)) ∙ f)
  blocks_after file (x ∷ before) c d rest e (first, done) f =
      after_write file x (before ++ c ∷ d ∷ rest) first
      ∙ blocks_after (String.◌++◌ file x) before c d rest e done
          (ap (λ s. fails s c) (sym (append_assoc file x (joined before))) ∙ f)

  -- The copy waits for ever exactly if the write of a chunk fails that is not the last one.
  pub write_chunks-waits :
      (cs : List String) → (write_chunks fails cs new_pipe ≡ none) ↔ IsCutShort "" cs
  write_chunks-waits cs = (
    write_chunks-IsCutShort "" cs,
    λ (before, c, d, rest, e, same, done, f).
        ap (λ l. write_chunks fails l new_pipe) same ∙ blocks_after "" before c d rest e done f,
  )

  -- A reader that has stopped has nothing more to read.
  stopped_last :
      (file : String) (e : Err) (cs : List String) (p : Pipe)
      → write_chunks fails cs (record { file = file; stopped = some e }) ≡ some p
      → p.stopped ≡ some e
  unfolding write_chunks
  stopped_last file e [] p h = ap (λ o. stop o) (sym h)
    where
      stop : Option Pipe → Option Err
      stop none = none
      stop (some p) = p.stopped
  stopped_last file e (c ∷ cs) p h = absurd (some-none (sym h))

  -- A copy after which the reader has not stopped has written all chunks.
  write_chunks-file :
      (file : String) (cs : List String) (p : Pipe)
      → write_chunks fails cs (pipe file) ≡ some p
      → p.stopped ≡ none
      → p.file ≡ String.◌++◌ file (joined cs)
  unfolding write_chunks
  write_chunks-file file [] p h s = sym (ap (λ o. file_of o) h) ∙ sym (append_nil_right file)
  write_chunks-file file (c ∷ cs) p h s = elim (Option-cases (fails file c)) [
    | inl f ↦
        write_chunks-file (String.◌++◌ file c) cs p (sym (after_write file c cs f) ∙ h) s
        ∙ sym (append_assoc file c (joined cs))
    | inr (e, f) ↦
        absurd
          (some-none (sym (stopped_last file e cs p (sym (after_failure file c cs e f) ∙ h)) ∙ s))
  ]

  -- The file has the whole content then.
  pub write_chunks-content :
      (sizes : List ℕ) (s : String) (p : Pipe)
      → write_chunks fails (chunks sizes s) new_pipe ≡ some p
      → p.stopped ≡ none
      → p.file ≡ s
  write_chunks-content sizes s p h still =
      write_chunks-file "" (chunks sizes s) p h still
      ∙ (append_nil (joined (chunks sizes s)) ∙ chunks_join sizes s)
