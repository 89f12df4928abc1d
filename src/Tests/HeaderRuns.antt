-- ===== src/Tests/HeaderRuns.antt =====
-- src/recording/wav_header.rs: a header of twenty bytes, without a format chunk, and a file behind it.
use nam_audio_pipe.Base.{
  ℕ, ◌+◌, ◌≤◌, ◌≡◌, refl, sym, ap, Option, none, some, List, [], ◌∷◌, length, arith, true, suc,
  zero, drop, inl, inr, Bool, false, ◌⊎◌, ◌∙◌,
}
use mathlib.Core.Path.{subst}
use mathlib.Core.Option.{some-injective}
use nam_audio_pipe.Recording.Buffer.{AudioMetadata}
use nam_audio_pipe.Recording.Io.{write_all_at}
use nam_audio_pipe.Recording.Wav.{AsyncWavWriter, write_samples, checkpoint}
use nam_audio_pipe.Recording.Wav.Building.{
  data_id, fact_id, begins_with, moved_on, position, rposition, patch, build_wav_header,
}
use nam_audio_pipe.Recording.Wav.Building.Sizes.{HoundLaws}
use nam_audio_pipe.Tests.CaptureRuns.{short_writes, blank}

-- "RIFF", a size, "WAVE", "data" and a size.
abbrev sized : ℕ → ℕ → ℕ → ℕ → ℕ → ℕ → ℕ → ℕ → List ℕ
sized a b c d w x y z =
    82 ∷ 73 ∷ 70 ∷ 70 ∷ a ∷ b ∷ c ∷ d ∷ 87 ∷ 65 ∷ 86 ∷ 69 ∷ 100 ∷ 97 ∷ 116 ∷ 97 ∷ w ∷ x ∷ y ∷ z ∷ []

abbrev pub short_header : AudioMetadata → Option (List ℕ)
short_header m = some (sized 0 0 0 0 0 0 0 0)

moved_on-begins :
    (b : Bool) (o : Option ℕ) (f : ℕ)
    → moved_on b o ≡ some f
    → ((f ≡ 0) × (b ≡ true)) ⊎ ((g : ℕ) × (o ≡ some g) × (f ≡ suc g))
moved_on-begins true o f e = inl (sym (some-injective _ _ e), refl)
moved_on-begins false none f e = cc
moved_on-begins false (some g) f e = inr (g, refl, sym (some-injective _ _ e))

position-begins :
    (xs : List ℕ) (f : ℕ) → position fact_id xs ≡ some f → begins_with fact_id (drop f xs) ≡ true
unfolding position
position-begins [] f e = cc
position-begins (x ∷ xs) f e =
    elim (moved_on-begins (begins_with fact_id (x ∷ xs)) (position fact_id xs) f e) [
      | inl (at, h) ↦ subst (λ k. begins_with fact_id (drop k (x ∷ xs)) ≡ true) (sym at) h
      | inr (g, found, next) ↦
          subst (λ k. begins_with fact_id (drop k (x ∷ xs)) ≡ true) (sym next)
            (position-begins xs g found)
    ]

no_fact :
    (a b c d w x y z f : ℕ)
    → begins_with fact_id (drop f (sized a b c d w x y z)) ≡ true
    → f + 12 ≤ 20
    → f + 16 ≤ 20
no_fact a b c d w x y z zero h l = omega arith
no_fact a b c d w x y z (suc zero) h l = omega arith
no_fact a b c d w x y z (suc (suc zero)) h l = omega arith
no_fact a b c d w x y z (suc (suc (suc zero))) h l = omega arith
no_fact a b c d w x y z (suc (suc (suc (suc zero)))) h l = omega arith
no_fact a b c d w x y z (suc (suc (suc (suc (suc zero))))) h l = ground (arith, h)
no_fact a b c d w x y z (suc (suc (suc (suc (suc (suc zero)))))) h l = ground (arith, h)
no_fact a b c d w x y z (suc (suc (suc (suc (suc (suc (suc zero))))))) h l = ground (arith, h)
no_fact a b c d w x y z (suc (suc (suc (suc (suc (suc (suc (suc zero)))))))) h l = cc
no_fact a b c d w x y z (suc (suc (suc (suc (suc (suc (suc (suc (suc f))))))))) h l =
    absurd (omega (arith, l))

four_riff :
    (riff : List ℕ)
    → length riff ≡ 4
    → rposition data_id (patch 4 riff (sized 0 0 0 0 0 0 0 0)) ≡ some 12
unfolding rposition patch
four_riff (a ∷ b ∷ c ∷ d ∷ []) e = refl
four_riff [] e = absurd (omega arith)
four_riff (a ∷ []) e = absurd (omega arith)
four_riff (a ∷ b ∷ []) e = absurd (omega arith)
four_riff (a ∷ b ∷ c ∷ []) e = absurd (omega arith)
four_riff (a ∷ b ∷ c ∷ d ∷ x ∷ xs) e = absurd (omega arith)

four_lem :
    (xs : List ℕ)
    → length xs ≡ 4
    → (a : ℕ) × (b : ℕ) × (c : ℕ) × (d : ℕ) × (xs ≡ a ∷ b ∷ c ∷ d ∷ [])
four_lem (a ∷ b ∷ c ∷ d ∷ []) e = (a, b, c, d, refl)
four_lem [] e = absurd (omega arith)
four_lem (a ∷ []) e = absurd (omega arith)
four_lem (a ∷ b ∷ []) e = absurd (omega arith)
four_lem (a ∷ b ∷ c ∷ []) e = absurd (omega arith)
four_lem (a ∷ b ∷ c ∷ d ∷ x ∷ xs) e = absurd (omega arith)

four_both :
    (riff bytes : List ℕ) (f : ℕ)
    → length riff ≡ 4
    → length bytes ≡ 4
    → position fact_id (patch 16 bytes (patch 4 riff (sized 0 0 0 0 0 0 0 0))) ≡ some f
    → f + 12 ≤ 20
    → f + 16 ≤ 20
unfolding patch
four_both riff bytes f e g h l =
    let (a, b, c, d, p) = four_lem riff e in
    let (w, x, y, z, q) = four_lem bytes g in
    no_fact a b c d w x y z f
      (position-begins (sized a b c d w x y z) f (
        ap
          (λ r.
            position fact_id (patch 16 (w ∷ x ∷ y ∷ z ∷ []) (patch 4 r (sized 0 0 0 0 0 0 0 0))))
          (sym p)
        ∙ ap (λ r. position fact_id (patch 16 r (patch 4 riff (sized 0 0 0 0 0 0 0 0)))) (sym q)
        ∙ h))
      l

pub short_laws : HoundLaws short_header
short_laws = record {
  size = λ m. 20;
  fixed = λ m h e. ap length (sym (some-injective _ _ e));
  envelope = λ m. omega arith;
  small = λ m. omega arith;
  data_last = λ m h riff e four.
      subst (λ k. rposition data_id (patch 4 riff k) ≡ some 12) (some-injective _ _ e)
        (four_riff riff four);
  fact_before = λ m h riff bytes f e four more found inside.
      four_both riff bytes f four more
        (ap (λ k. position fact_id (patch 16 bytes (patch 4 riff k))) (some-injective _ _ e)
          ∙ found)
        inside;
}

abbrev cd : AudioMetadata
cd = record { sample_rate = 44100; bit_depth = 32; channels = 2 }

abbrev fresh_file : AsyncWavWriter short_writes
fresh_file = record {
  file = (write_all_at short_writes blank (sized 12 0 0 0 0 0 0 0) 0).file;
  metadata = cd;
  header_len = 20;
  data_bytes_written = 0;
  current_offset = 20;
  bytes_since_checkpoint = 0;
  checkpoint_interval_bytes = 1000;
}

abbrev one_frame : AsyncWavWriter short_writes
one_frame = (write_samples 2 (258 ∷ 772 ∷ []) fresh_file).1

abbrev synced : AsyncWavWriter short_writes
synced = (checkpoint (build_wav_header short_header) one_frame).1
