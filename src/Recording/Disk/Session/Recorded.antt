-- ===== src/Recording/Disk/Session/Recorded.antt =====
-- src/recording/disk.rs: what the capture files hold after any turns of the worker between any calls
-- of the RT thread.
use mathlib.Core.Path.{subst}
use nam_audio_pipe.Base.{
  ℕ, true, ◌≢◌, arith, ◌≡◌, refl, sym, ap, ◌∙◌, none, some, List, [], ◌∷◌, ◌++◌, Option-cases, inl,
  inr,
}
use nam_audio_pipe.Recording.Buffer.{AlignedBlock, ControlPayload, as_slice}
use nam_audio_pipe.Recording.Buffer.Planar.{length-as_slice}
use nam_audio_pipe.Recording.Pool.{Descriptor, pool_capacity}
use nam_audio_pipe.Recording.Pool.Bounds.{IsFit}
use nam_audio_pipe.Recording.Status.{Observed}
use nam_audio_pipe.Recording.Transport.{Rings, Live, create_recording_transport}
use nam_audio_pipe.Recording.Disk.Intake.{Taken, block, take_next}
use nam_audio_pipe.Recording.Disk.Worker.{Worker, WavSink, maybe_check_space}
use nam_audio_pipe.Recording.Disk.Loop.{process}
use nam_audio_pipe.Recording.Disk.Parts.{
  SinkLaws, IsFilled, played, last_format, IsRecording, between, no_files,
}
use nam_audio_pipe.Recording.Disk.Parts.Processing.{
  played-append, last_format-append, IsReadable, process-IsRecording, maybe_check_space-same,
  same-IsRecording,
}
use nam_audio_pipe.Recording.Disk.Session.{
  Session, started, Sends, none_sent, sent, Step, rt_call, turn, idle, Reaches, here, next,
}
use nam_audio_pipe.Recording.Disk.Session.Reading.{block_of, take_next-IsSlot}
use nam_audio_pipe.Recording.Delivery.{Event, missed, heard, read_block, Link, receive}
use nam_audio_pipe.Recording.Delivery.Queued.{Queued, audio, format}
use nam_audio_pipe.Recording.Delivery.Sending.{IsRested}
use nam_audio_pipe.Recording.Delivery.Order.{Kept, last, Call-Kept}
use nam_audio_pipe.Recording.Delivery.Receiving.{Receives, nothing, first, receive-Receives}
use nam_audio_pipe.Recording.Delivery.Arrival.{opened, opened-Kept}

pub list_head : {x y : Event} {xs ys : List Event} → x ∷ xs ≡ y ∷ ys → x ≡ y
list_head e = ground arith

-- Nothing that is queued is missed when it is taken.
pub Queued-sound :
    {slots : List AlignedBlock} {end : List ControlPayload} {ds : List Descriptor}
    {c : List ControlPayload} {es : List Event} (e : Event)
    → Queued slots end ds c (e ∷ es)
    → e ≢ missed
Queued-sound e (audio h g r q) m = cc
Queued-sound e (format h g q) m = cc

-- A block in the slots is two channels of valid samples, if it reads at all.
IsFit-IsFilled : (b : AlignedBlock) (xs : List ℕ) → IsFit b → as_slice b ≡ some xs → IsFilled b xs
IsFit-IsFilled b xs v e = record {
  samples = e;
  size = omega (arith, length-as_slice b xs e, v.valid, v.cells);
  whole = v.whole;
  small = v.valid;
}

heard_lem :
    {R : Rings} {n : ℕ} {end : List ControlPayload} {s : Live R} {es : List Event}
    {slots : List AlignedBlock} {ds : List Descriptor} {c : List ControlPayload}
    (o : Taken × Live R)
    → Receives n end s es o
    → Queued slots end ds c es
    → heard o.0 ≢ missed ∷ []
heard_lem o (nothing q a) v h = cc
heard_lem o (first e es t q same a) v h = Queued-sound e v (list_head (sym same ∙ h))

sounding :
    (d : Descriptor) (b : AlignedBlock)
    → heard (block d b) ≢ missed ∷ []
    → (xs : List ℕ) × (as_slice b ≡ some xs)
sounding d b h = elim (Option-cases (as_slice b)) [
  | inl e ↦ absurd (h (ap (λ o. read_block o ∷ []) e))
  | inr (xs, e) ↦ (xs, e)
]

-- A turn reads a filled block or none.
pub rested-IsReadable :
    {R : Rings} (n : ℕ) (end : List ControlPayload) (s : Live R) (es : List Event)
    → IsRested n s.pool
    → Queued s.pool.slots end ((R.W).contents s.pool.work) ((R.C).contents s.control) es
    → IsReadable (take_next s).0
rested-IsReadable n end s es rested queued d b e =
    let (i, slot) = take_next-IsSlot s b (ap block_of e) in
    let receives = receive-Receives n end s rested es queued in
    let (xs, samples) =
      sounding d b (λ h. heard_lem (take_next s) receives queued (ap heard e ∙ h)) in
    (xs, IsFit-IsFilled b xs (rested.sized.fits i b slot) samples)

Kept-IsReadable :
    {R : Rings} (l : Link R) (kept : Kept pool_capacity l) → IsReadable (take_next l.live).0
Kept-IsReadable l kept =
    rested-IsReadable pool_capacity (last l.stopped) l.live kept.0 kept.1.rested kept.1.queued

module _ {R : Rings} {S : WavSink} (L : SinkLaws S) where
  -- Where the worker stands behind what it took out.
  pub record IsAbreast (s : Session R S) : Type 0 where
    pub kept : Kept pool_capacity s.link
    pub recording :
        IsRecording L s.worker (last_format none s.link.delivered) (played none s.link.delivered)

  turn-recording :
      (s : Session R S)
      → IsAbreast s
      → (process (take_next s.link.live).0 s.worker).0 ≡ true
      → IsRecording L
          (process (take_next s.link.live).0 s.worker).1
          (last_format none (s.link.delivered ++ heard (take_next s.link.live).0))
          (played none (s.link.delivered ++ heard (take_next s.link.live).0))
  turn-recording s v h =
      let t : Taken = (take_next s.link.live).0 in
      subst
        (λ o. IsRecording L (process t s.worker).1 o (played none (s.link.delivered ++ heard t)))
        (sym (last_format-append none s.link.delivered (heard t)))
        (subst
          (IsRecording L (process t s.worker).1
            (last_format (last_format none s.link.delivered) (heard t)))
          (sym (played-append none s.link.delivered (heard t)))
          (process-IsRecording t s.worker (Kept-IsReadable s.link v.kept) v.recording h))

  pub Step-IsAbreast : {s t : Session R S} → IsAbreast s → Step s t → IsAbreast t
  Step-IsAbreast v (rt_call s l c e) = record {
    kept = Call-Kept pool_capacity v.kept.0 c v.kept.1;
    recording =
        subst (λ d. IsRecording L s.worker (last_format none d) (played none d)) (sym e)
          v.recording;
  }
  Step-IsAbreast v (turn s h) = record {
    kept = Call-Kept pool_capacity v.kept.0 (receive s.link) v.kept.1;
    recording = turn-recording s v h;
  }
  Step-IsAbreast v (idle s due) = record {
    kept = v.kept;
    recording =
        same-IsRecording s.worker (maybe_check_space due s.worker)
          (maybe_check_space-same due s.worker).0 (maybe_check_space-same due s.worker).1
          v.recording;
  }

  pub Sends-IsAbreast :
      {l k : Link R} (w : Worker S)
      → IsAbreast (record { link = l; worker = w })
      → Sends l k
      → IsAbreast (record { link = k; worker = w })
  Sends-IsAbreast w v none_sent = v
  Sends-IsAbreast w v (sent {m = m} {k = k} r c e) =
      Step-IsAbreast (Sends-IsAbreast w v r) (rt_call (record { link = m; worker = w }) k c e)

  pub Reaches-IsAbreast : {s t : Session R S} → IsAbreast s → Reaches s t → IsAbreast t
  Reaches-IsAbreast v here = v
  Reaches-IsAbreast v (next r c) = Step-IsAbreast (Reaches-IsAbreast v r) c

  pub started-IsAbreast :
      (live : Live R) (status : Observed)
      → create_recording_transport ≡ some live
      → IsAbreast (record { link = opened live; worker = started status })
  started-IsAbreast live status made = record {
    kept = opened-Kept live made;
    recording = between refl no_files;
  }

  -- From a transport that `create_recording_transport` built and a worker that has just started, after
  -- any interleaving of the RT thread's calls with turns of the worker that went well: the files that
  -- were closed and the open one hold exactly the blocks that the worker took behind the first format,
  -- in order and each in the format announced last before it. No such block is lost or written twice
  -- where a file ends; a block before the first format has no file and is dropped.
  pub files_hold_delivered :
      (live : Live R) (status : Observed) (s : Session R S)
      → create_recording_transport ≡ some live
      → Reaches (record { link = opened live; worker = started status }) s
      → IsRecording L s.worker (last_format none s.link.delivered) (played none s.link.delivered)
  files_hold_delivered live status s made r =
      (Reaches-IsAbreast (started-IsAbreast live status made) r).recording
