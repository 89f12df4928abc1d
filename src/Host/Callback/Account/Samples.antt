-- ===== src/Host/Callback/Account/Samples.antt =====
-- src/standalone/pw_host/rt_callback/process.rs: one quantum is recorded in its own rate, counted as
-- lost, or has nothing to record.
use mathlib.Core.Path.{subst}
use nam_audio_pipe.Base.{
  ℕ, ◌+◌, ◌*◌, ◌%◌, ◌==◌, ◌&&◌, ◌≡◌, ◌⊎◌, refl, sym, ap, ◌∙◌, Bool, true, false, not, inl, inr,
  none, some, List, [], ◌∷◌, ◌++◌, take, u64_max, arith, Bool-cases, ==→eq, ltb→le, if◌then◌else◌,
  ltb,
}
use nam_audio_pipe.Recording.Buffer.{AudioMetadata, max_block_size}
use nam_audio_pipe.Recording.Pool.{Pool}
use nam_audio_pipe.Recording.Transport.{Rings, enabled, push_audio, has_producer}
use nam_audio_pipe.Recording.Delivery.{Event, sound, kept, note, Link, send_sound, Runs, here, next}
use nam_audio_pipe.Recording.Disk.Parts.{Played, played, last_format}
use nam_audio_pipe.Recording.Disk.Parts.Processing.{played-append, last_format-append}
use nam_audio_pipe.Host.Callback.Recorder.{
  Recorder, is_failed, overrun, hint, send_recording_metadata, pooled, to_sender,
  send_recording_audio, Quantum, record_samples, record_announced, record_quantum,
}
use nam_audio_pipe.Host.Callback.Account.{
  meta_for, IsFollowing, IsAnnounced, send_recording_metadata-IsAnnounced,
}

-- What became of a quantum: the recording and the count of lost frames before and behind it.
pub data Outcome (f32_bits : ℕ → ℕ) (q : Quantum) (ps : List Played) (n : ℕ)
    : List Played → ℕ → Type 0 where
  recorded :
      is_failed q.failed_behind ≡ false
      → Outcome f32_bits q ps n
          (ps ++ (meta_for f32_bits q.rate, kept (take q.n_pw q.left) (take q.n_pw q.right)) ∷ [])
          n
  lost : Outcome f32_bits q ps n ps ((n + q.n_pw) % (u64_max + 1))
  skipped : (q.n_pw ≡ 0) ⊎ (is_failed q.failed_behind ≡ true) → Outcome f32_bits q ps n ps n

pub record IsAccounted {R : Rings} (f32_bits : ℕ → ℕ) (q : Quantum) (l : Link R) (n : ℕ)
    (t : Recorder R) : Type 0 where
  pub link : Link R
  pub runs : Runs l link
  pub following : IsFollowing f32_bits t link
  pub outcome :
      Outcome f32_bits q (played none l.accepted) n (played none link.accepted) t.overrun_frames

sound_played :
    (es : List Event) (xs : List ℕ) (m : AudioMetadata)
    → last_format none es ≡ some m
    → played none (es ++ sound xs ∷ []) ≡ played none es ++ (m, xs) ∷ []
sound_played es xs m e =
    played-append none es (sound xs ∷ []) ∙ ap (λ o. played none es ++ played o (sound xs ∷ [])) e

no_count : (a b c : Bool) → c ≡ true → (a && b && not c) ≡ false
no_count true true c h = rw h refl
no_count true false c h = refl
no_count false b c h = refl

module _ {R : Rings} (f32_bits : ℕ → ℕ) (q : Quantum) (l : Link R) (s : Recorder R)
    (v : IsFollowing f32_bits s l) where
  -- Nothing was sent.
  kept_back :
      (t : Recorder R)
      → IsFollowing f32_bits t l
      → Outcome f32_bits q
          (played none l.accepted)
          s.overrun_frames
          (played none l.accepted)
          t.overrun_frames
      → IsAccounted f32_bits q l s.overrun_frames t
  kept_back t w o = record { link = l; runs = here; following = w; outcome = o }

  pooled-IsAccounted :
      (o : Bool × Pool R.F R.W)
      → push_audio (take q.n_pw q.left) (take q.n_pw q.right) l.live.pool ≡ o
      → is_failed q.failed_behind ≡ false
      → s.meta_sent ≡ true
      → s.meta_rate ≡ q.rate
      → IsAccounted f32_bits q l s.overrun_frames (pooled q.n_pw (enabled l.live) o s)
  pooled-IsAccounted (true, p) e f sent rate =
      let xs : List ℕ = kept (take q.n_pw q.left) (take q.n_pw q.right) in
      let last : last_format none l.accepted ≡ some (meta_for f32_bits q.rate) =
        v.format sent ∙ ap (λ r. some (meta_for f32_bits r)) rate in
      record {
        link = record l {
          live = record (l.live) { pool = p };
          accepted = l.accepted ++ sound xs ∷ [];
        };
        runs =
            subst
              (λ o. Runs l (record l {
                live = record (l.live) { pool = o.1 };
                accepted = note o.0 (sound xs) l.accepted;
              }))
              e (next here (send_sound l (take q.n_pw q.left) (take q.n_pw q.right) v.running));
        following = record {
          sender = refl;
          running = v.running;
          format = λ h. last_format-append none l.accepted (sound xs ∷ []) ∙ v.format sent;
        };
        outcome =
            subst
              (λ ps.
                Outcome f32_bits q (played none l.accepted) s.overrun_frames ps s.overrun_frames)
              (sym (sound_played l.accepted xs (meta_for f32_bits q.rate) last)) (recorded f);
      }
  pooled-IsAccounted (false, p) e f sent rate = record {
    link = record l { live = record (l.live) { pool = p } };
    runs =
        subst
          (λ o. Runs l (record l {
            live = record (l.live) { pool = o.1 };
            accepted =
                note o.0 (sound (kept (take q.n_pw q.left) (take q.n_pw q.right))) l.accepted;
          }))
          e (next here (send_sound l (take q.n_pw q.left) (take q.n_pw q.right) v.running));
    following = record { sender = refl; running = v.running; format = v.format };
    outcome = lost;
  }

  audio-IsAccounted :
      s.meta_sent ≡ true
      → s.meta_rate ≡ q.rate
      → IsAccounted f32_bits q l s.overrun_frames
          (send_recording_audio q.n_pw q.left q.right q.failed_behind s)
  unfolding send_recording_audio
  audio-IsAccounted sent rate = elim (Bool-cases (q.n_pw == 0)) [
    | inl e ↦ rw (e, send_recording_audio) (kept_back s v (skipped (inl (==→eq q.n_pw 0 e))))
    | inr e ↦ elim (Bool-cases (is_failed q.failed_behind)) [
      | inl f ↦
          rw (e, send_recording_audio, f)
            (kept_back (hint false s)
              (record { sender = v.sender; running = v.running; format = v.format })
              (skipped (inr f)))
      | inr f ↦ elim (Bool-cases (ltb max_block_size (q.n_pw * 2))) [
        | inl g ↦
            rw (e, send_recording_audio, f, g)
              (kept_back (overrun q.n_pw s)
                (record { sender = v.sender; running = v.running; format = v.format }) lost)
        | inr g ↦
            rw (e, send_recording_audio, f, g)
              (subst
                (λ t.
                  IsAccounted f32_bits q l s.overrun_frames (to_sender q.n_pw q.left q.right t s))
                (sym v.sender)
                (pooled-IsAccounted
                  (push_audio (take q.n_pw q.left) (take q.n_pw q.right) l.live.pool) refl f sent
                  rate))
      ]
    ]
  ]

  followed_hint : (b : Bool) → IsFollowing f32_bits (hint b s) l
  followed_hint b = record { sender = v.sender; running = v.running; format = v.format }

  -- A raised failure flag suspends the recording, whatever was sent before.
  suspended :
      (b : Bool)
      → is_failed q.failed_behind ≡ true
      → IsAccounted f32_bits q l s.overrun_frames (record_samples b q s)
  unfolding send_recording_audio
  suspended true f = elim (Bool-cases (q.n_pw == 0)) [
    | inl e ↦ rw (e, send_recording_audio) (kept_back s v (skipped (inr f)))
    | inr e ↦
        rw (e, send_recording_audio, f)
          (kept_back (hint false s) (followed_hint false) (skipped (inr f)))
  ]
  suspended false f =
      subst (λ b. IsAccounted f32_bits q l s.overrun_frames (if b then overrun q.n_pw s else s))
        (sym (no_count (has_producer s.sender) (ltb 0 q.n_pw) (is_failed q.failed_behind) f))
        (kept_back s v (skipped (inr f)))

  has_channels : has_producer s.sender ≡ true
  unfolding has_producer
  has_channels = ap has_producer v.sender

  unsent :
      is_failed q.failed_behind ≡ false
      → IsAccounted f32_bits q l s.overrun_frames (record_samples false q s)
  unsent f = elim (Bool-cases (ltb 0 q.n_pw)) [
    | inl e ↦
        rw (has_channels, e, f)
          (kept_back (overrun q.n_pw s)
            (record { sender = v.sender; running = v.running; format = v.format }) lost)
    | inr e ↦
        rw (has_channels, e) (kept_back s v (skipped (inl (omega (arith, ltb→le 0 q.n_pw e)))))
  ]

  samples-IsAccounted :
      (b : Bool)
      → s.meta_sent ≡ b
      → is_failed q.failed_behind ≡ false
      → (s.meta_sent ≡ true → s.meta_rate ≡ q.rate)
      → IsAccounted f32_bits q l s.overrun_frames (record_samples b q s)
  samples-IsAccounted true e f c = audio-IsAccounted e (c e)
  samples-IsAccounted false e f c = unsent f

pub Runs-append : {R : Rings} {a b c : Link R} → Runs a b → Runs b c → Runs a c
Runs-append r here = r
Runs-append r (next s k) = next (Runs-append r s) k

module _ {R : Rings} (f32_bits : ℕ → ℕ) (q : Quantum) (l : Link R) (s : Recorder R)
    (v : IsFollowing f32_bits s l) where
  behind_format :
      (t : Recorder R) (m : IsAnnounced f32_bits q.rate l s t)
      → IsAccounted f32_bits q m.link t.overrun_frames (record_announced q t)
      → IsAccounted f32_bits q l s.overrun_frames (record_announced q t)
  behind_format t m o = record {
    link = o.link;
    runs = Runs-append m.runs o.runs;
    following = o.following;
    outcome =
        subst
          (λ n.
            Outcome f32_bits q (played none l.accepted) n (played none o.link.accepted)
              (record_announced q t).overrun_frames)
          m.lost
          (subst
            (λ ps.
              Outcome f32_bits q ps t.overrun_frames (played none o.link.accepted)
                (record_announced q t).overrun_frames)
            m.same o.outcome);
  }

  hinted :
      is_failed q.failed_before ≡ true
      → send_recording_metadata f32_bits q.rate q.failed_before s ≡ hint false s
  unfolding send_recording_metadata
  hinted e = rw (e, send_recording_metadata) refl

  behind_both :
      (b : Bool)
      → is_failed q.failed_behind ≡ b
      → is_failed q.failed_before ≡ false
      → IsAccounted f32_bits q l s.overrun_frames (record_quantum f32_bits q s)
  unfolding record_quantum
  behind_both true f e =
      let t : Recorder R = send_recording_metadata f32_bits q.rate q.failed_before s in
      let m = send_recording_metadata-IsAnnounced f32_bits q.rate q.failed_before s l e v in
      behind_format t m (suspended f32_bits q m.link t m.following t.meta_sent f)
  behind_both false f e =
      let t : Recorder R = send_recording_metadata f32_bits q.rate q.failed_before s in
      let m = send_recording_metadata-IsAnnounced f32_bits q.rate q.failed_before s l e v in
      behind_format t m
        (samples-IsAccounted f32_bits q m.link t m.following t.meta_sent refl f m.current)

  -- One quantum, for a failure flag that stays raised.
  pub record_quantum-IsAccounted :
      (is_failed q.failed_before ≡ true → is_failed q.failed_behind ≡ true)
      → IsAccounted f32_bits q l s.overrun_frames (record_quantum f32_bits q s)
  unfolding record_quantum
  record_quantum-IsAccounted sticky = elim (Bool-cases (is_failed q.failed_before)) [
    | inr e ↦ behind_both (is_failed q.failed_behind) refl e
    | inl e ↦
        subst (λ t. IsAccounted f32_bits q l s.overrun_frames (record_announced q t))
          (sym (hinted e))
          (suspended f32_bits q l (hint false s) (followed_hint f32_bits q l s v false) s.meta_sent
            (sticky e))
  ]
