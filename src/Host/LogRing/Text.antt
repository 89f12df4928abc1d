-- ===== src/Host/LogRing/Text.antt =====
-- src/standalone/pw_host/rt_log_ring.rs: what the drainer reads of a captured string.
use nam_audio_pipe.Base.{
  ℕ, zero, suc, [], ◌∷◌, ◌∙◌, ap, ◌++◌, ◌≤◌, ◌≡◌, refl, Bool, List, arith, length, min, take, drop,
  replicate, length-take, length-replicate, take-append_lem,
}
use nam_audio_pipe.Host.LogRing.{
  copy_bounded, capture, text_or, file_str, topic_str, msg_str, file_cap, topic_cap, msg_cap,
  invalid_text, non_utf8_text,
}

take-min : {A : Type 0} (m n : ℕ) (xs : List A) → m ≡ min (length xs) n → take m xs ≡ take n xs
take-min zero zero xs e = refl
take-min zero (suc n) [] e = refl
take-min zero (suc n) (x ∷ xs) e = absurd (omega arith)
take-min (suc m) zero xs e = absurd (omega arith)
take-min (suc m) (suc n) [] e = refl
take-min (suc m) (suc n) (x ∷ xs) e = ap (◌∷◌ x) (take-min m n xs (omega arith))

-- A field reads back as the string, cut at the field's size.
copy_bounded_lem :
    (cap : ℕ) (src : List ℕ)
    → cap ≤ 65535
    → take (min (copy_bounded (replicate cap 0) src).1 cap) (copy_bounded (replicate cap 0) src).0
      ≡ take cap src
unfolding copy_bounded
copy_bounded_lem cap src h =
    let k = min (length src) (length (replicate {A = ℕ} cap 0)) in
    ap (λ n. take n (take k src ++ drop k (replicate cap 0)))
      (omega (arith, h, length-replicate {A = ℕ} cap 0))
    ∙ take-append_lem k (take k src) (drop k (replicate cap 0)) (omega (arith, length-take k src))
    ∙ ap (λ n. take (min (length src) n) src) (length-replicate {A = ℕ} cap 0)
    ∙ take-min (min (length src) cap) cap src refl

-- Of each captured string the drainer reads the first bytes that fit the field, and when the cut
-- leaves no valid UTF-8 it reads the replacement text instead of all of them.
pub capture_text :
    (is_utf8 : List ℕ → Bool) (level line : ℕ) (file topic msg : List ℕ)
    → (file_str is_utf8 (capture level line file topic msg)
        ≡ text_or is_utf8 (take file_cap file) invalid_text)
      × (topic_str is_utf8 (capture level line file topic msg)
          ≡ text_or is_utf8 (take topic_cap topic) [])
      × (msg_str is_utf8 (capture level line file topic msg)
          ≡ text_or is_utf8 (take msg_cap msg) non_utf8_text)
unfolding capture
capture_text is_utf8 level line file topic msg = (
  ap (λ bytes. text_or is_utf8 bytes invalid_text) (copy_bounded_lem file_cap file (omega arith)),
  ap (λ bytes. text_or is_utf8 bytes []) (copy_bounded_lem topic_cap topic (omega arith)),
  ap (λ bytes. text_or is_utf8 bytes non_utf8_text) (copy_bounded_lem msg_cap msg (omega arith)),
)
