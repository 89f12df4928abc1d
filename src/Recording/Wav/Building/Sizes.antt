-- ===== src/Recording/Wav/Building/Sizes.antt =====
-- src/recording/wav_header.rs, `build_wav_header`: the size fields of the header, and of the file that
-- `finalize` of src/recording/disk.rs leaves.
use mathlib.Core.Path.{subst}
use mathlib.Core.Option.{some-injective}
use nam_audio_pipe.Base.{
  ℕ, zero, suc, ◌+◌, ◌-◌, ◌*◌, ◌/◌, ◌≤◌, ◌<◌, ◌≡◌, refl, sym, ap, ◌∙◌, ◌==◌, ltb, leb, ◌&&◌, Bool,
  true, inl, inr, Option, none, some, List, [], ◌∷◌, ◌++◌, length, take, drop, get_elem?, u32_max,
  arith, Bool-cases, length-take, length-drop, length-append,
}
use nam_audio_pipe.Recording.Buffer.{AudioMetadata, max_block_size}
use nam_audio_pipe.Recording.Wav.{le_bytes}
use nam_audio_pipe.Recording.Wav.Data.{get_elem?-append_left, get_elem?-append_right}
use nam_audio_pipe.Recording.Wav.Building.{
  data_id, fact_id, position, rposition, patch, patch_fact_at, patch_fact, patch_data, patch_sizes,
  build_wav_header, from_le_bytes,
}

-- What hound does for an empty file: for each format a header of one length, which ends with the
-- empty `data` chunk, and whose `fact` chunk, if there is one, is complete before it.
pub record HoundLaws (empty_header : AudioMetadata → Option (List ℕ)) : Type 0 where
  pub size : AudioMetadata → ℕ
  pub fixed : (m : AudioMetadata) (h : List ℕ) → empty_header m ≡ some h → length h ≡ size m
  pub envelope : (m : AudioMetadata) → 16 ≤ size m
  pub small : (m : AudioMetadata) → size m + 4 * max_block_size ≤ u32_max
  pub data_last :
      (m : AudioMetadata) (h riff : List ℕ)
      → empty_header m ≡ some h
      → length riff ≡ 4
      → rposition data_id (patch 4 riff h) ≡ some (size m - 8)
  pub fact_before :
      (m : AudioMetadata) (h riff bytes : List ℕ) (f : ℕ)
      → empty_header m ≡ some h
      → length riff ≡ 4
      → length bytes ≡ 4
      → position fact_id (patch (size m - 4) bytes (patch 4 riff h)) ≡ some f
      → f + 12 ≤ size m
      → f + 16 ≤ size m

get-take : (n i : ℕ) (xs : List ℕ) → i < n → get_elem? (take n xs) i ≡ get_elem? xs i
get-take zero i xs h = absurd (omega (arith, h))
get-take (suc n) i [] h = refl
get-take (suc n) zero (x ∷ xs) h = refl
get-take (suc n) (suc i) (x ∷ xs) h = get-take n i xs (omega (arith, h))

get-behind : (xs : List ℕ) (i : ℕ) → length xs ≤ i → get_elem? xs i ≡ none
get-behind [] i h = refl
get-behind (x ∷ xs) zero h = absurd (omega (arith, h))
get-behind (x ∷ xs) (suc i) h = get-behind xs i (omega (arith, h))

get-drop : (n i : ℕ) (xs : List ℕ) → get_elem? (drop n xs) i ≡ get_elem? xs (n + i)
get-drop zero i xs = let e : i ≡ zero + i = omega arith in ap (get_elem? xs) e
get-drop (suc n) i [] = sym (get-behind [] (suc n + i) (omega arith))
get-drop (suc n) i (x ∷ xs) =
    let e : suc (n + i) ≡ suc n + i = omega arith in get-drop n i xs ∙ ap (get_elem? (x ∷ xs)) e

module _ (at : ℕ) (bytes h : List ℕ) (fits : at + length bytes ≤ length h) where
  length-patch : length (patch at bytes h) ≡ length h
  unfolding patch
  length-patch = omega (
    arith,
    fits,
    length-append (take at h) (bytes ++ drop (at + length bytes) h),
    length-append bytes (drop (at + length bytes) h),
    length-take at h,
    length-drop (at + length bytes) h,
  )

  patch_in : (i : ℕ) → i < length bytes → get_elem? (patch at bytes h) (at + i) ≡ get_elem? bytes i
  unfolding patch
  patch_in i b =
      get_elem?-append_right (take at h) (bytes ++ drop (at + length bytes) h) (at + i) i
        (omega (arith, fits, length-take at h))
      ∙ get_elem?-append_left bytes (drop (at + length bytes) h) i b

  patch_below : (i : ℕ) → i < at → get_elem? (patch at bytes h) i ≡ get_elem? h i
  unfolding patch
  patch_below i b =
      get_elem?-append_left (take at h) (bytes ++ drop (at + length bytes) h) i
        (omega (arith, fits, b, length-take at h))
      ∙ get-take at i h b

  patch_above : (i : ℕ) → at + length bytes ≤ i → get_elem? (patch at bytes h) i ≡ get_elem? h i
  unfolding patch
  patch_above i b =
      get_elem?-append_right (take at h) (bytes ++ drop (at + length bytes) h) i (i - at)
        (omega (arith, fits, b, length-take at h))
      ∙ get_elem?-append_right bytes (drop (at + length bytes) h) (i - at) (i - (at + length bytes))
          (omega (arith, b))
      ∙ get-drop (at + length bytes) (i - (at + length bytes)) h
      ∙ ap (get_elem? h) (omega (arith, b))

-- The two size fields of a header of `size` bytes that stands before `n` bytes of data.
pub record AreStated (size n : ℕ) (h : List ℕ) : Type 0 where
  pub total : length h ≡ size
  pub riff : (i : ℕ) → i < 4 → get_elem? h (4 + i) ≡ get_elem? (le_bytes (size - 8 + n)) i
  pub data_size : (i : ℕ) → i < 4 → get_elem? h (size - 4 + i) ≡ get_elem? (le_bytes n) i

and_le : (a b : ℕ) (c : Bool) → (leb a b && c) ≡ true → a ≤ b
and_le a b c e = ground arith

module _ (size n : ℕ) (large : 16 ≤ size) where
  two_patches :
      (h : List ℕ)
      → length h ≡ size
      → AreStated size n (patch (size - 4) (le_bytes n) (patch 4 (le_bytes (size - 8 + n)) h))
  two_patches h e =
      let riff = patch 4 (le_bytes (size - 8 + n)) h in
      let same : length riff ≡ length h =
        length-patch 4 (le_bytes (size - 8 + n)) h (omega (arith, large, e)) in
      let fits : size - 4 + 4 ≤ length riff = omega (arith, large, e, same) in
      record {
        total = length-patch (size - 4) (le_bytes n) riff fits ∙ same ∙ e;
        riff = λ i b.
            patch_below (size - 4) (le_bytes n) riff fits (4 + i) (omega (arith, large, b))
            ∙ patch_in 4 (le_bytes (size - 8 + n)) h (omega (arith, large, e)) i b;
        data_size = λ i b. patch_in (size - 4) (le_bytes n) riff fits i b;
      }

  fact_keeps :
      (samples : ℕ) (h : List ℕ) (o : Option ℕ)
      → AreStated size n h
      → ((f : ℕ) → o ≡ some f → f + 12 ≤ size → f + 16 ≤ size)
      → AreStated size n (patch_fact_at samples h o)
  unfolding patch_fact_at
  fact_keeps samples h none v before = v
  fact_keeps samples h (some f) v before =
      elim (Bool-cases (leb (f + 12) (length h) && leb 4 (from_le_bytes (drop (f + 4) h)))) [
        | inr e ↦ rw e v
        | inl e ↦
            let inside : f + 12 ≤ length h = and_le (f + 12) (length h) _ e in
            let fits : f + 8 + 4 ≤ length h = omega (arith, inside) in
            let ahead : f + 16 ≤ size = before f refl (omega (arith, inside, v.total)) in
            rw e (record {
              total = length-patch (f + 8) (le_bytes samples) h fits ∙ v.total;
              riff = λ i b.
                  patch_below (f + 8) (le_bytes samples) h fits (4 + i) (omega (arith, b))
                  ∙ v.riff i b;
              data_size = λ i b.
                  patch_above (f + 8) (le_bytes samples) h fits (size - 4 + i)
                    (omega (arith, ahead))
                  ∙ v.data_size i b;
            })
      ]

module _ {empty_header : AudioMetadata → Option (List ℕ)} (laws : HoundLaws empty_header) where
  fact_patched :
      (m : AudioMetadata) (n : ℕ) (h k : List ℕ)
      → empty_header m ≡ some h
      → patch_fact m n
          (patch (laws.size m - 4) (le_bytes n) (patch 4 (le_bytes (laws.size m - 8 + n)) h))
        ≡ some k
      → AreStated (laws.size m) n k
  unfolding patch_fact
  fact_patched m n h k made e =
      let v = two_patches (laws.size m) n (laws.envelope m) h (laws.fixed m h made) in
      elim (Bool-cases (m.bit_depth == 32)) [
        | inr c ↦ subst (AreStated (laws.size m) n) (some-injective _ _ (rw c at e)) v
        | inl c ↦ elim (Bool-cases (m.channels * (m.bit_depth / 8) == 0)) [
          | inl z ↦ cc (rw (c, z) at e)
          | inr z ↦ subst (AreStated (laws.size m) n) (some-injective _ _ (rw (c, z) at e)) (
              fact_keeps (laws.size m) n (laws.envelope m) _ _ _ v
                (λ f found. laws.fact_before m h _ _ f made refl refl found))
        ]
      ]

  data_patched :
      (m : AudioMetadata) (n : ℕ) (h k : List ℕ) (o : Option ℕ)
      → empty_header m ≡ some h
      → o ≡ some (laws.size m - 8)
      → patch_data m n (patch 4 (le_bytes (laws.size m - 8 + n)) h) o ≡ some k
      → AreStated (laws.size m) n k
  unfolding patch_data
  data_patched m n h k none made found e = cc
  data_patched m n h k (some p) made found e =
      elim (Bool-cases (ltb (length (patch 4 (le_bytes (laws.size m - 8 + n)) h)) (p + 8))) [
        | inl c ↦ cc (rw c at e)
        | inr c ↦
            let place : p + 4 ≡ laws.size m - 4 =
              omega (arith, some-injective _ _ found, laws.envelope m) in
            fact_patched m n h k made (
              ap
                (λ q.
                  patch_fact m n
                    (patch q (le_bytes n) (patch 4 (le_bytes (laws.size m - 8 + n)) h)))
                (sym place)
              ∙ rw c at e)
      ]

  sizes_patched :
      (m : AudioMetadata) (n : ℕ) (k : List ℕ) (o : Option (List ℕ))
      → empty_header m ≡ o
      → patch_sizes m n o ≡ some k
      → AreStated (laws.size m) n k
  unfolding patch_sizes
  sizes_patched m n k none made e = cc
  sizes_patched m n k (some h) made e =
      let total : length h ≡ laws.size m = laws.fixed m h made in
      elim (Bool-cases (ltb (length h) 8)) [
        | inl c ↦ cc (rw c at e)
        | inr c ↦ elim (Bool-cases (ltb u32_max (length h - 8 + n))) [
          | inl d ↦ cc (rw (c, d) at e)
          | inr d ↦
              data_patched m n h k _ made
                (laws.data_last m h (le_bytes (laws.size m - 8 + n)) made refl)
                (ap
                    (λ s.
                      patch_data m n (patch 4 (le_bytes (s - 8 + n)) h)
                        (rposition data_id (patch 4 (le_bytes (s - 8 + n)) h)))
                    (sym total)
                  ∙ rw (c, d) at e)
        ]
      ]

  -- The header that `build_wav_header` makes has the length of the empty one, and its RIFF and data
  -- fields state the sizes.
  pub build_wav_header-AreStated :
      (m : AudioMetadata) (n : ℕ) (h : List ℕ)
      → build_wav_header empty_header m n ≡ some h
      → AreStated (laws.size m) n h
  build_wav_header-AreStated m n h e = sizes_patched m n h (empty_header m) refl e
