-- ===== src/Recording/Io/Persisted.antt =====
-- src/recording/io.rs, the contract of `write_all_at`.
use native.Mathlib.Nat.{zero-add, suc-add}
use nam_audio_pipe.Base.{
  ℕ, zero, suc, ◌+◌, ◌-◌, ◌%◌, ◌≤◌, ◌≡◌, ◌≢◌, ◌⊎◌, ◌==◌, ltb, leb, ◌&&◌, if◌then◌else◌, false,
  Option, List, [], ◌∷◌, length, drop, get_elem?, u64_max, arith, refl, sym, ap, ◌∙◌, Bool-cases,
  inl, inr, length-drop, ==→eq,
}
use nam_audio_pipe.Recording.Io.{
  Submission, wrote, refused, overwritten, WriteAt, Written, complete, write_zero, invalid_data,
  failed, out_of_fuel, Outcome, write_loop, write_all_at,
}

-- `n` bytes went out, and the remainder is the rest of the buffer.
pub record IsPersisted (B : WriteAt) (file : B.File) (buf : List ℕ) (offset : ℕ) (o : Outcome B)
    (n : ℕ) : Type 0 where
  pub remains : o.remainder ≡ drop n buf
  pub in_buffer : n ≤ length buf
  pub on_disk : (i : ℕ) → (B.byte) o.file i ≡ overwritten ((B.byte) file) buf offset n i
  pub whole : o.result ≡ complete → n ≡ length buf
  pub ended : o.result ≢ out_of_fuel
  pub honest : o.result ≢ invalid_data

get_elem?-drop : (n i j : ℕ) (xs : List ℕ) → n + i ≡ j → get_elem? (drop n xs) i ≡ get_elem? xs j
get_elem?-drop zero i j xs h = let same : i ≡ j = omega (arith, h) in ap (get_elem? xs) same
get_elem?-drop (suc n) i j [] h = refl
get_elem?-drop (suc n) i zero (x ∷ xs) h = absurd (omega arith)
get_elem?-drop (suc n) i (suc j) (x ∷ xs) h = get_elem?-drop n i j xs (omega (arith, h))

-- Two writes in a row are one of both lengths.
overwritten-drop :
    (old : ℕ → Option ℕ) (buf : List ℕ) (offset n m i : ℕ)
    → overwritten (overwritten old buf offset n) (drop n buf) (offset + n) m i
      ≡ overwritten old buf offset (n + m) i
overwritten-drop old buf offset n m i = elim (Bool-cases (leb (offset + n) i)) [
  | inl e ↦
      let same : get_elem? (drop n buf) (i - (offset + n)) ≡ get_elem? buf (i - offset) =
        get_elem?-drop n (i - (offset + n)) (i - offset) buf (ground arith) in
      ground arith
  | inr e ↦ ground arith
]

-- The loop continued behind a write of `n` bytes.
IsPersisted-drop :
    (B : WriteAt) (file next : B.File) (buf : List ℕ) (offset n m : ℕ) (o : Outcome B)
    → n ≤ length buf
    → ((i : ℕ) → (B.byte) next i ≡ overwritten ((B.byte) file) buf offset n i)
    → IsPersisted B next (drop n buf) (offset + n) o m
    → IsPersisted B file buf offset o (n + m)
IsPersisted-drop B file next buf offset n m o le first v = record {
  remains = v.remains ∙ drop-drop n m buf;
  in_buffer = omega (arith, v.in_buffer, length-drop n buf);
  on_disk = λ i.
      v.on_disk i
      ∙ overwritten-ap ((B.byte) next) (overwritten ((B.byte) file) buf offset n) (drop n buf)
          (offset + n) m i (first i)
      ∙ overwritten-drop ((B.byte) file) buf offset n m i;
  whole = λ h. omega (arith, v.whole h, length-drop n buf);
  ended = v.ended;
  honest = v.honest;
}
  where
    drop-nil : (n : ℕ) → drop {A = ℕ} n [] ≡ []
    drop-nil zero = refl
    drop-nil (suc n) = refl

    drop-drop : (n m : ℕ) (xs : List ℕ) → drop m (drop n xs) ≡ drop (n + m) xs
    drop-drop zero m xs = ap (λ k. drop k xs) (sym (zero-add m))
    drop-drop (suc n) m [] = drop-nil m ∙ sym (drop-nil (suc n + m))
    drop-drop (suc n) m (x ∷ xs) = drop-drop n m xs ∙ ap (λ k. drop k (x ∷ xs)) (sym (suc-add n m))

    overwritten-ap :
        (f g : ℕ → Option ℕ) (xs : List ℕ) (at k i : ℕ)
        → f i ≡ g i
        → overwritten f xs at k i ≡ overwritten g xs at k i
    overwritten-ap f g xs at k i h =
        ap (λ x. if leb at i && ltb i (at + k) then get_elem? xs (i - at) else x) h

nothing_written :
    (old : ℕ → Option ℕ) (buf : List ℕ) (offset i : ℕ) → old i ≡ overwritten old buf offset 0 i
nothing_written old buf offset i = ground arith

-- An end of the loop at which nothing more was written.
stopped :
    (B : WriteAt) (file next : B.File) (buf : List ℕ) (offset : ℕ) (w : Written)
    → ((i : ℕ) → (B.byte) next i ≡ (B.byte) file i)
    → (w ≡ complete → 0 ≡ length buf)
    → w ≢ out_of_fuel
    → w ≢ invalid_data
    → IsPersisted B file buf offset (record { result = w; remainder = buf; file = next }) 0
stopped B file next buf offset w same done ended honest = record {
  remains = refl;
  in_buffer = omega arith;
  on_disk = λ i. same i ∙ nothing_written ((B.byte) file) buf offset i;
  whole = done;
  ended = ended;
  honest = honest;
}

Submission-cases : (s : Submission) → ((e : ℕ) × (s ≡ refused e)) ⊎ ((n : ℕ) × (s ≡ wrote n))
Submission-cases (refused e) = inl (e, refl)
Submission-cases (wrote n) = inr (n, refl)

module _ (B : WriteAt) where
  write_loop_lem :
      (fuel : ℕ) (file : B.File) (buf : List ℕ) (offset : ℕ)
      → length buf ≤ fuel
      → offset + length buf ≤ u64_max
      → (n : ℕ) × IsPersisted B file buf offset (write_loop B fuel file buf offset) n
  unfolding write_loop
  write_loop_lem fuel file [] offset h r =
      (0, stopped B file file [] offset complete (λ i. refl) (λ e. refl) (λ e. cc) (λ e. cc))
  write_loop_lem zero file (x ∷ xs) offset h r = absurd (omega (arith, h))
  write_loop_lem (suc fuel) file (x ∷ xs) offset h r =
      elim (Submission-cases ((B.write_at) file (x ∷ xs) offset).0) [
        | inl (e, s) ↦
            rw (s, write_loop)
              (
                0,
                stopped B file ((B.write_at) file (x ∷ xs) offset).1 (x ∷ xs) offset (failed e)
                    ((B.byte_refused) file (x ∷ xs) offset e s) (λ k. cc) (λ k. cc) (λ k. cc),
              )
        | inr (n, s) ↦
            let le : n ≤ length (x ∷ xs) = (B.wrote_le) file (x ∷ xs) offset n s in
            let small : ltb (length (x ∷ xs)) n ≡ false = ground arith in
            elim (Bool-cases (n == 0)) [
              | inl z ↦
                  rw (s, z, write_loop)
                    (
                      0,
                      stopped B file ((B.write_at) file (x ∷ xs) offset).1 (x ∷ xs) offset
                          write_zero
                          (λ i.
                            (B.byte_wrote) file (x ∷ xs) offset n s i ∙ unwritten n i (==→eq n 0 z))
                          (λ k. cc) (λ k. cc) (λ k. cc),
                    )
              | inr p ↦
                  let at : (offset + n) % (u64_max + 1) ≡ offset + n = omega (arith, r, le) in
                  let (m, v) =
                    write_loop_lem fuel ((B.write_at) file (x ∷ xs) offset).1 (drop n (x ∷ xs))
                      (offset + n) (ground (arith, length-drop n (x ∷ xs)))
                      (omega (arith, length-drop n (x ∷ xs), le, r)) in
                  rw (s, p, small, at, write_loop)
                    (
                      n + m,
                      IsPersisted-drop B file ((B.write_at) file (x ∷ xs) offset).1 (x ∷ xs) offset
                          n m _ le ((B.byte_wrote) file (x ∷ xs) offset n s) v,
                    )
            ]
      ]
    where
      unwritten :
          (n i : ℕ) → n ≡ 0 → overwritten ((B.byte) file) (x ∷ xs) offset n i ≡ (B.byte) file i
      unwritten n i z = ground arith

-- For an offset and a buffer inside the 64-bit range, over every backend that keeps the documented
-- contract: the loop ends within as many turns as the buffer has bytes, and never reports
-- `InvalidData`. It returns a suffix of the buffer, the bytes before that suffix are in the file at
-- their offset, every other byte of the file is as it was, and on success the suffix is empty.
pub write_all_at_lem :
    (B : WriteAt) (file : B.File) (buf : List ℕ) (offset : ℕ)
    → offset + length buf ≤ u64_max
    → (n : ℕ) × IsPersisted B file buf offset (write_all_at B file buf offset) n
unfolding write_all_at
write_all_at_lem B file buf offset h = write_loop_lem B (length buf) file buf offset (omega arith) h
