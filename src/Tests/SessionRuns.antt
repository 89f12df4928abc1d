-- ===== src/Tests/SessionRuns.antt =====
-- src/recording/disk.rs: a session over a sink that keeps one block in a file.
use mathlib.Core.Option.{some-injective}
use nam_audio_pipe.Base.{
  ℕ, ◌<◌, ◌≡◌, refl, sym, ap, Bool, true, false, Option, none, some, List, [], ◌∷◌, ◌++◌, length,
  ltb, arith, ◌+◌, ◌==◌, if◌then◌else◌, Bool-cases, inl, inr, ==→eq,
}
use nam_audio_pipe.Recording.Spsc.{bounded}
use nam_audio_pipe.Recording.Buffer.{
  AlignedBlock, AudioMetadata, RingPayload, audio, format, stop, stream_stop, as_slice, assume_init,
  fill_planar, new_uninit,
}
use nam_audio_pipe.Recording.Status.{Observed, starting}
use nam_audio_pipe.Recording.Transport.{Live, push_metadata, push_audio}
use nam_audio_pipe.Recording.Pool
use nam_audio_pipe.Recording.Pool.{
  try_push_barrier, try_acquire, publish, fill_slot, try_pop, release,
}
use nam_audio_pipe.Recording.Disk.Intake.{take_next, match_metadata, finish}
use nam_audio_pipe.Recording.Disk.Worker.{
  WavSink, Worker, open_new_part, finalize_current, write_block_with_overflow_rollover,
  write_current,
}
use nam_audio_pipe.Recording.Disk.Loop.{
  Producers, process, disk_writer_loop_pool, disk_writer_loop_inline,
}
use nam_audio_pipe.Recording.Disk.Parts.{SinkLaws, IsFilled, Played, IsRecording, last_format}
use nam_audio_pipe.Recording.Disk.Parts
use nam_audio_pipe.Recording.Disk.Parts.Ending.{IsConcluded}
use nam_audio_pipe.Recording.Disk.Session.{
  Session, started, received, rt_call, turn, Reaches, here, next, none_sent, sent,
}
use nam_audio_pipe.Recording.Disk.Session.Recorded.{files_hold_delivered}
use nam_audio_pipe.Recording.Disk.Session.Racing.{LastCalls, all_in, racing, stop_completes}
use nam_audio_pipe.Recording.Disk.Session.Inline.{IsCarrying, ended, block, change}
use nam_audio_pipe.Recording.Disk.Session.Agreement.{transports_agree}
use nam_audio_pipe.Recording.Disk.Entry.{
  OutputDir, Receiver, pool_receiver, accepted, published, disk_writer_loop,
}
use nam_audio_pipe.Recording.Disk.Entry.Reported.{IsAccounted, IsReported, failure_reported}
use nam_audio_pipe.Recording.Delivery.{sound, Link, send_format, send_sound, send_stop, note, kept}
use nam_audio_pipe.Recording.Delivery.Arrival.{opened}
use nam_audio_pipe.Recording.Wav.Sink.{Volume, uring_sink, uring_laws}
use nam_audio_pipe.Recording.Capture.{capture_on_disk, header_laws}
use nam_audio_pipe.Recording.Wav.Building.{build_wav_header}
use nam_audio_pipe.Tests.HeaderRuns.{short_header, short_laws}
use nam_audio_pipe.Recording.Disk.Creation.{Opened}
use nam_audio_pipe.Tests.CaptureRuns.{short_writes, blank}
use nam_audio_pipe.Tests.DeliveryRuns.{rings, ready, ready_made, cd, announced, played}

record Take : Type 0 where
  format_of : AudioMetadata
  blocks : List (List ℕ)

abbrev put : Option (List ℕ) → Take → Bool × Take
put none w = (false, w)
put (some xs) w = (true, record w { blocks = w.blocks ++ xs ∷ [] })

abbrev one_block_files : WavSink
one_block_files = record {
  Writer = Take;
  metadata = λ w. w.format_of;
  would_overflow = λ n w. ltb 0 (length w.blocks);
  write_block = λ b w. put (as_slice b) w;
  checkpoint_due = λ w. true;
  checkpoint = λ w. (true, w);
  finalize = λ w. (true, w);
  create = λ part m. some (record { format_of = m; blocks = [] }, part);
  free_bytes = λ i m. some 7;
  low_space_warning = λ free m. some free;
}

Holds : Take → AudioMetadata → List (List ℕ) → Type 0
Holds w m xss = (w.format_of ≡ m) × (w.blocks ≡ xss)

put-Holds :
    (o : Option (List ℕ)) (w : Take) (m : AudioMetadata) (xss : List (List ℕ)) (xs : List ℕ)
    → Holds w m xss
    → o ≡ some xs
    → Holds (put o w).1 m (xss ++ xs ∷ [])
unfolding Holds
put-Holds none w m xss xs v e = cc
put-Holds (some ys) w m xss xs v e = (v.0, ground (arith, v.1, some-injective _ _ e))

blank_fits : (w : Take) (m : AudioMetadata) → Holds w m [] → ltb 0 (length w.blocks) ≡ false
unfolding Holds
blank_fits w m v = ap (λ l. ltb 0 (length l)) v.1

laws : SinkLaws one_block_files
unfolding Holds
laws = record {
  IsHolding = Holds;
  IsComplete = Holds;
  fresh = λ part m w path e. (
    ap (λ p. p.0.format_of) (sym (some-injective _ _ e)),
    ap (λ p. p.0.blocks) (sym (some-injective _ _ e)),
  );
  format = λ w m xss v. v.0;
  fits = λ w m b xs v f. blank_fits w m v;
  appended = λ w m xss b xs v f room done. put-Holds (as_slice b) w m xss xs v f.samples;
  synced = λ w m xss v. v;
  completed = λ w m xss v done. v;
}

abbrev quiet : {A : Type 0} → Producers A
quiet = record {
  before_turn = λ i a. a;
  before_control = λ i a. a;
  control_abandoned = λ i. false;
  work_abandoned = λ i. false;
  space_check_due = λ i. true;
}

abbrev idle_status : Observed
idle_status = record { status = starting; poisoned = false; failed_flag = false }

abbrev worker : Worker one_block_files
worker = started idle_status

abbrev before : Session rings one_block_files
before = record { link = opened ready; worker = worker }

-- The format, two frames, and the token.
abbrev token_sent : Link rings
token_sent = record played {
  live = record (played.live) { control = ((rings.C).push played.live.control stream_stop).1 };
  stopped = ((rings.C).push played.live.control stream_stop).0;
}

abbrev all_sent : Session rings one_block_files
all_sent = record { link = token_sent; worker = worker }

token_stopped : token_sent.stopped ≡ true
unfolding push_metadata try_push_barrier push_audio try_acquire publish fill_slot fill_planar
    new_uninit
token_stopped = refl

token_count : length token_sent.live.pool.work.items + 1 < 4
unfolding push_metadata try_push_barrier push_audio try_acquire publish fill_slot fill_planar
    new_uninit
token_count = omega arith

-- The worker has taken the format and looks at an empty pool; then a block and the token come.
abbrev tuned : Session rings one_block_files
tuned = record {
  link = received announced;
  worker = (process (take_next announced.live).0 worker).1;
}

tuned_reached : Reaches before tuned
unfolding process take_next try_pop push_metadata try_push_barrier match_metadata open_new_part
    finalize_current
tuned_reached =
    next (next here (rt_call before announced (send_format (opened ready) cd refl) refl))
      (turn (record { link = announced; worker = worker }) refl)

abbrev idle_link : Link rings
idle_link = received tuned.link

abbrev late_block : Link rings
late_block = record idle_link {
  live = record (idle_link.live) {
    pool = (push_audio (1 ∷ 2 ∷ []) (3 ∷ 4 ∷ []) idle_link.live.pool).1;
  };
  accepted =
      note (push_audio (1 ∷ 2 ∷ []) (3 ∷ 4 ∷ []) idle_link.live.pool).0
        (sound (kept (1 ∷ 2 ∷ []) (3 ∷ 4 ∷ []))) idle_link.accepted;
}

abbrev late_token : Link rings
late_token = record late_block {
  live = record (late_block.live) {
    control = ((rings.C).push late_block.live.control stream_stop).1;
  };
  stopped = ((rings.C).push late_block.live.control stream_stop).0;
}

abbrev racing_env : Producers (Live rings)
racing_env = record {
  before_turn = λ i a. a;
  before_control = λ i a. if i == 0 then late_token.live else a;
  control_abandoned = λ i. false;
  work_abandoned = λ i. false;
  space_check_due = λ i. true;
}

later_quiet : (j : ℕ) (t : Live rings) → 0 < j → (if j == 0 then late_token.live else t) ≡ t
later_quiet j t h = elim (Bool-cases (j == 0)) [
  | inl e ↦ absurd (omega (arith, h, ==→eq j 0 e))
  | inr e ↦ rw e refl
]

late_calls : LastCalls racing_env 0 tuned late_token
unfolding take_next try_pop push_audio try_acquire push_metadata try_push_barrier publish fill_slot
    fill_planar new_uninit match_metadata finish release
late_calls =
    racing late_token refl
      (sent (sent none_sent (send_sound idle_link (1 ∷ 2 ∷ []) (3 ∷ 4 ∷ []) refl) refl)
        (send_stop late_block refl) refl)
      refl refl later_quiet refl

late_count : length late_token.live.pool.work.items + 1 < 3
unfolding take_next try_pop push_audio try_acquire push_metadata try_push_barrier publish fill_slot
    fill_planar new_uninit match_metadata finish release
late_count = omega arith

stop_completes_example :
    IsConcluded laws
      (Parts.played none late_token.accepted)
      (disk_writer_loop_pool 3 racing_env 0 tuned.link.live tuned.worker)
stop_completes_example =
    stop_completes {L = laws} 3 0 racing_env ready idle_status tuned late_token ready_made
      tuned_reached (λ j t. refl) late_calls late_count

abbrev empty_volume : Volume short_writes
empty_volume = record {
  open_at = λ part suffix. Opened.opened;
  file_at = λ part suffix. blank;
  path_at = λ part suffix. part;
  available_bytes = λ i. none;
  interval = λ m. 1000;
  low_space_warning = λ free m. none;
}

abbrev uring_worker : Worker (uring_sink (build_wav_header short_header) empty_volume)
uring_worker = started idle_status

abbrev uring_before : Session rings (uring_sink (build_wav_header short_header) empty_volume)
uring_before = record { link = opened ready; worker = uring_worker }

abbrev uring_sent : Session rings (uring_sink (build_wav_header short_header) empty_volume)
uring_sent = record { link = token_sent; worker = uring_worker }

uring_reached : Reaches uring_before uring_sent
uring_reached =
    next
      (next (next here (rt_call uring_before announced (send_format (opened ready) cd refl) refl)) (
        rt_call (record { link = announced; worker = uring_worker }) played
          (send_sound announced (1 ∷ 2 ∷ []) (3 ∷ 4 ∷ []) refl) refl))
      (rt_call (record { link = played; worker = uring_worker }) token_sent (send_stop played refl)
        refl)

capture_on_disk_example :
    IsAccounted
      (uring_laws (build_wav_header short_header) empty_volume (header_laws short_laws))
      (Parts.played none token_sent.accepted)
      (published 9 (accepted 7) (disk_writer_loop_pool 4 quiet 0 token_sent.live uring_worker))
capture_on_disk_example =
    capture_on_disk short_header short_laws empty_volume 4 0 9 (accepted 7) quiet ready idle_status
      uring_sent token_sent ready_made uring_reached (λ j t. refl)
      (all_in token_stopped (λ j t. refl)) token_count

-- A second block, and three turns of the worker: the second block starts a new file.
abbrev played_on : Link rings
played_on = record played {
  live = record (played.live) { pool = (push_audio (5 ∷ []) (6 ∷ []) played.live.pool).1 };
  accepted =
      note (push_audio (5 ∷ []) (6 ∷ []) played.live.pool).0 (sound (kept (5 ∷ []) (6 ∷ [])))
        played.accepted;
}

abbrev start_of : Link rings → Session rings one_block_files
start_of l = record { link = l; worker = worker }

abbrev turned : Session rings one_block_files → Session rings one_block_files
turned s = record {
  link = received s.link;
  worker = (process (take_next s.link.live).0 s.worker).1;
}

abbrev three_turns : Session rings one_block_files
three_turns = turned (turned (turned (start_of played_on)))

three_turns_reached : Reaches before three_turns
unfolding process take_next try_pop push_audio try_acquire push_metadata try_push_barrier publish
    fill_slot fill_planar new_uninit match_metadata open_new_part finalize_current finish release
    write_block_with_overflow_rollover Pool.block write_current as_slice assume_init
three_turns_reached =
    next
      (next
        (next
          (next
            (next (next here (rt_call before announced (send_format (opened ready) cd refl) refl)) (
              rt_call (start_of announced) played
                (send_sound announced (1 ∷ 2 ∷ []) (3 ∷ 4 ∷ []) refl) refl))
            (rt_call (start_of played) played_on (send_sound played (5 ∷ []) (6 ∷ []) refl) refl))
          (turn (start_of played_on) refl))
        (turn (turned (start_of played_on)) refl))
      (turn (turned (turned (start_of played_on))) refl)

files_hold_delivered_example :
    IsRecording laws three_turns.worker
      (last_format none three_turns.link.delivered)
      (Parts.played none three_turns.link.delivered)
files_hold_delivered_example =
    files_hold_delivered laws ready idle_status three_turns ready_made three_turns_reached

abbrev two_frames : AlignedBlock
two_frames = record { cells = some 1 ∷ some 2 ∷ some 3 ∷ some 4 ∷ []; valid_len = 4 }

two_frames-IsFilled : IsFilled two_frames (1 ∷ 2 ∷ 3 ∷ 4 ∷ [])
unfolding as_slice assume_init
two_frames-IsFilled = record { samples = refl; size = refl; whole = refl; small = omega arith }

-- On the ring of the inline loop: what the calls of the pool run accepted.
abbrev tape : List RingPayload
tape = format cd ∷ audio two_frames ∷ stop ∷ []

tape_carries : IsCarrying tape late_token.accepted
unfolding take_next try_pop push_audio try_acquire push_metadata try_push_barrier publish fill_slot
    fill_planar new_uninit match_metadata finish release
tape_carries = change cd (block two_frames (1 ∷ 2 ∷ 3 ∷ 4 ∷ []) two_frames-IsFilled (ended []))

accepted_count : length late_token.accepted < 3
unfolding take_next try_pop push_audio try_acquire push_metadata try_push_barrier publish fill_slot
    fill_planar new_uninit match_metadata finish release
accepted_count = omega arith

transports_agree_example :
    IsConcluded laws
      (Parts.played none late_token.accepted)
      (disk_writer_loop_pool 3 racing_env 0 tuned.link.live tuned.worker)
    × IsConcluded laws (Parts.played none late_token.accepted) (
        disk_writer_loop_inline
          (bounded RingPayload)
          3
          quiet
          0
          (record { items = tape; limit = 8 })
          worker)
transports_agree_example =
    transports_agree laws 3 0 racing_env ready idle_status tuned late_token (bounded RingPayload)
      quiet 3 (record { items = tape; limit = 8 }) ready_made tuned_reached (λ j t. refl) late_calls
      late_count (λ j r. refl) tape_carries refl accepted_count

abbrev usable : OutputDir
usable = record { is_dir = true; probe_created = true; probe_written = true; probe_synced = true }

abbrev pool_side : Receiver rings
pool_side = pool_receiver quiet token_sent.live

failure_reported_example :
    IsReported usable 7 9
      (disk_writer_loop {S = one_block_files} 3 7 9 usable pool_side idle_status)
failure_reported_example = failure_reported {S = one_block_files} 3 7 9 usable pool_side idle_status
