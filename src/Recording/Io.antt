-- ===== src/Recording/Io.antt =====
-- src/recording/io.rs: `write_all_at` over a backend of positioned writes. The backend stands for
-- io_uring and the kernel: a parameter, with what `write_at` documents.
pub mod Persisted
use nam_audio_pipe.Base.{
  ℕ, zero, suc, ◌+◌, ◌-◌, ◌%◌, ◌≤◌, ◌<◌, ◌≡◌, ◌≢◌, ◌==◌, ltb, leb, ◌&&◌, if◌then◌else◌, Bool, true,
  false, Option, none, some, List, [], ◌∷◌, length, drop, get_elem?, u64_max, arith, refl, sym, ap,
  ◌∙◌, Bool-cases, inl, inr,
}

-- The result of one submission: how many bytes went out, or the kind of the error.
pub data Submission : Type 0 where
  wrote : ℕ → Submission
  refused : ℕ → Submission

-- The bytes of a file behind a write of the first `n` bytes of `buf` at `offset`.
abbrev pub overwritten : (ℕ → Option ℕ) → List ℕ → ℕ → ℕ → ℕ → Option ℕ
overwritten old buf offset n i =
    if leb offset i && ltb i (offset + n) then get_elem? buf (i - offset) else old i

pub record WriteAt : Type 1 where
  pub File : Type 0
  pub byte : File → ℕ → Option ℕ
  pub write_at : File → List ℕ → ℕ → Submission × File
  -- `sync_all`, `true` for success.
  pub sync_all : File → Bool × File
  pub byte_sync : (f : File) (i : ℕ) → byte (sync_all f).1 i ≡ byte f i
  -- The kernel never reports more bytes than it was given.
  pub wrote_le :
      (f : File) (buf : List ℕ) (offset n : ℕ)
      → (write_at f buf offset).0 ≡ wrote n
      → n ≤ length buf
  pub byte_wrote :
      (f : File) (buf : List ℕ) (offset n : ℕ)
      → (write_at f buf offset).0 ≡ wrote n
      → (i : ℕ) → byte (write_at f buf offset).1 i ≡ overwritten (byte f) buf offset n i
  pub byte_refused :
      (f : File) (buf : List ℕ) (offset e : ℕ)
      → (write_at f buf offset).0 ≡ refused e
      → (i : ℕ) → byte (write_at f buf offset).1 i ≡ byte f i

pub data Written : Type 0 where
  complete : Written
  write_zero : Written
  invalid_data : Written
  failed : ℕ → Written
  out_of_fuel : Written

pub record Outcome (B : WriteAt) : Type 0 where
  pub result : Written
  pub remainder : List ℕ
  pub file : B.File

-- The loop of `write_all_at`; each turn with progress shortens the buffer.
unfoldable pub write_loop : (B : WriteAt) → ℕ → B.File → List ℕ → ℕ → Outcome B
write_loop B fuel file [] offset = record { result = complete; remainder = []; file = file }
write_loop B zero file (x ∷ xs) offset = record {
  result = out_of_fuel;
  remainder = x ∷ xs;
  file = file;
}
write_loop B (suc fuel) file (x ∷ xs) offset =
    let sent = (B.write_at) file (x ∷ xs) offset in
    elim sent.0 [
      | refused e ↦ record { result = failed e; remainder = x ∷ xs; file = sent.1 }
      | wrote n ↦
          let rest = write_loop B fuel sent.1 (drop n (x ∷ xs)) ((offset + n) % (u64_max + 1)) in
          if n == 0
          then record { result = write_zero; remainder = x ∷ xs; file = sent.1 }
          else if ltb (length (x ∷ xs)) n
          then record { result = invalid_data; remainder = x ∷ xs; file = sent.1 }
          else rest
    ]

unfoldable pub write_all_at : (B : WriteAt) → B.File → List ℕ → ℕ → Outcome B
write_all_at B file buf offset = write_loop B (length buf) file buf offset
