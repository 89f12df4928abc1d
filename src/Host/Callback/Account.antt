-- ===== src/Host/Callback/Account.antt =====
-- src/standalone/pw_host/rt_callback/process.rs against src/recording/transport.rs: where the samples
-- of a quantum go.
pub mod Samples
pub mod Quanta
use mathlib.Core.Path.{subst}
use mathlib.Core.List.{append-nil}
use nam_audio_pipe.Base.{
  ℕ, ◌+◌, ◌%◌, ◌==◌, ◌≡◌, ◌⊎◌, refl, sym, ap, ◌∙◌, Bool, true, false, inl, inr, Option, none, some,
  List, [], ◌∷◌, ◌++◌, take, u64_max, arith, Bool-cases, ==→eq, if◌then◌else◌, ltb,
}
use nam_audio_pipe.Recording.Buffer.{AudioMetadata, max_block_size}
use nam_audio_pipe.Recording.Pool.{Pool}
use nam_audio_pipe.Recording.Transport.{
  Rings, Live, RecordingSender, pool_transport, enabled, push_metadata, push_audio,
  try_push_metadata,
}
use nam_audio_pipe.Recording.Delivery.{
  Event, sound, new_format, kept, note, Link, Call, send_format, send_sound, Runs, here, next,
}
use nam_audio_pipe.Recording.Disk.Parts.{Played, played, last_format}
use nam_audio_pipe.Recording.Disk.Parts.Processing.{
  played-append, last_format-append, format_nothing,
}
use nam_audio_pipe.Host.Callback.Recorder.{
  Recorder, is_failed, overrun, hint, confirmed, announce, announce_current, invalidated,
  send_recording_metadata, pooled, to_pool, to_sender, send_recording_audio, Quantum,
  record_samples, record_quantum,
}

-- The format that the callback announces for a rate of the host.
abbrev pub meta_for : (ℕ → ℕ) → ℕ → AudioMetadata
meta_for f32_bits rate = record { sample_rate = f32_bits rate; bit_depth = 32; channels = 2 }

-- The recorder uses the sender of the link, and a confirmed format is the one announced last.
pub record IsFollowing {R : Rings} (f32_bits : ℕ → ℕ) (s : Recorder R) (l : Link R) : Type 0 where
  pub sender : s.sender ≡ pool_transport (enabled l.live)
  pub running : l.stopped ≡ false
  pub format :
      s.meta_sent ≡ true → last_format none l.accepted ≡ some (meta_for f32_bits s.meta_rate)

-- The link behind the format, with the recorder that announced it.
pub record IsAnnounced {R : Rings} (f32_bits : ℕ → ℕ) (rate : ℕ) (l : Link R) (s t : Recorder R)
    : Type 0 where
  pub link : Link R
  pub runs : Runs l link
  pub following : IsFollowing f32_bits t link
  pub same : played none link.accepted ≡ played none l.accepted
  pub current : t.meta_sent ≡ true → t.meta_rate ≡ rate
  pub lost : t.overrun_frames ≡ s.overrun_frames

format_played :
    (es : List Event) (m : AudioMetadata) → played none (es ++ new_format m ∷ []) ≡ played none es
format_played es m =
    played-append none es (new_format m ∷ [])
    ∙ ap (λ l. played none es ++ l) (format_nothing (last_format none es) m)
    ∙ append-nil (played none es)

module _ {R : Rings} where
  metadata_sent :
      (m : AudioMetadata) (s : Live R)
      → try_push_metadata m (pool_transport (enabled s))
        ≡ ((push_metadata m s).0, pool_transport (enabled (push_metadata m s).1))
  unfolding try_push_metadata
  metadata_sent m s = refl

  -- The call, by its answer.
  confirmed-IsAnnounced :
      (f32_bits : ℕ → ℕ) (rate : ℕ) (s : Recorder R) (l : Link R) (o : Bool × Live R)
      → push_metadata (meta_for f32_bits rate) l.live ≡ o
      → l.stopped ≡ false
      → s.meta_sent ≡ false
      → IsAnnounced f32_bits rate l s (confirmed rate (o.0, pool_transport (enabled o.1)) s)
  confirmed-IsAnnounced f32_bits rate s l (true, live) e run unsent = record {
    link = record l {
      live = live;
      accepted = l.accepted ++ new_format (meta_for f32_bits rate) ∷ [];
    };
    runs =
        subst
          (λ o. Runs l (record l {
            live = o.1;
            accepted = note o.0 (new_format (meta_for f32_bits rate)) l.accepted;
          }))
          e (next here (send_format l (meta_for f32_bits rate) run));
    following = record {
      sender = refl;
      running = run;
      format = λ h. last_format-append none l.accepted (new_format (meta_for f32_bits rate) ∷ []);
    };
    same = format_played l.accepted (meta_for f32_bits rate);
    current = λ h. refl;
    lost = refl;
  }
  confirmed-IsAnnounced f32_bits rate s l (false, live) e run unsent = record {
    link = record l { live = live };
    runs =
        subst
          (λ o. Runs l (record l {
            live = o.1;
            accepted = note o.0 (new_format (meta_for f32_bits rate)) l.accepted;
          }))
          e (next here (send_format l (meta_for f32_bits rate) run));
    following = record { sender = refl; running = run; format = λ h. cc };
    same = refl;
    current = λ h. cc;
    lost = refl;
  }

  announce-IsAnnounced :
      (f32_bits : ℕ → ℕ) (rate : ℕ) (b : Bool) (s : Recorder R) (l : Link R)
      → s.meta_sent ≡ b
      → IsFollowing f32_bits s l
      → (s.meta_sent ≡ true → s.meta_rate ≡ rate)
      → IsAnnounced f32_bits rate l s (announce b rate (meta_for f32_bits rate) s)
  announce-IsAnnounced f32_bits rate true s l e v c = record {
    link = l;
    runs = here;
    following = v;
    same = refl;
    current = c;
    lost = refl;
  }
  announce-IsAnnounced f32_bits rate false s l e v c =
      subst (λ o. IsAnnounced f32_bits rate l s (confirmed rate o s))
        (sym (
          ap (try_push_metadata (meta_for f32_bits rate)) v.sender
          ∙ metadata_sent (meta_for f32_bits rate) l.live))
        (confirmed-IsAnnounced f32_bits rate s l (push_metadata (meta_for f32_bits rate) l.live)
          refl v.running e)

  invalidated-IsAnnounced :
      (f32_bits : ℕ → ℕ) (rate : ℕ) (b : Bool) (s : Recorder R) (l : Link R)
      → (s.meta_rate == rate) ≡ b
      → IsFollowing f32_bits s l
      → IsAnnounced f32_bits rate l s
          (announce_current rate (meta_for f32_bits rate) (invalidated b s))
  invalidated-IsAnnounced f32_bits rate true s l e v =
      announce-IsAnnounced f32_bits rate s.meta_sent s l refl v (λ h. ==→eq s.meta_rate rate e)
  invalidated-IsAnnounced f32_bits rate false s l e v =
      let w : IsFollowing f32_bits (record s { meta_sent = false }) l = record {
        sender = v.sender;
        running = v.running;
        format = λ h. cc;
      } in
      let o =
        announce-IsAnnounced f32_bits rate false (record s { meta_sent = false }) l refl w
          (λ h. cc) in
      record {
        link = o.link;
        runs = o.runs;
        following = o.following;
        same = o.same;
        current = o.current;
        lost = o.lost;
      }

  pub send_recording_metadata-IsAnnounced :
      (f32_bits : ℕ → ℕ) (rate : ℕ) (failed : Option Bool) (s : Recorder R) (l : Link R)
      → is_failed failed ≡ false
      → IsFollowing f32_bits s l
      → IsAnnounced f32_bits rate l s (send_recording_metadata f32_bits rate failed s)
  unfolding send_recording_metadata
  send_recording_metadata-IsAnnounced f32_bits rate failed s l e v =
      subst
        (λ b. IsAnnounced f32_bits rate l s (
          if b
          then hint false s
          else announce_current rate (meta_for f32_bits rate)
              (invalidated (s.meta_rate == rate) s)))
        (sym e) (invalidated-IsAnnounced f32_bits rate (s.meta_rate == rate) s l refl v)
