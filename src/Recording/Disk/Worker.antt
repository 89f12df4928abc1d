-- ===== src/Recording/Disk/Worker.antt =====
-- src/recording/disk.rs: the worker behind the intake. The sink is a parameter, as it is in the
-- source, with what it answers for each part and for each space probe; a result is `true` or, for an
-- error, `false`, beside the state that the call leaves.
use nam_audio_pipe.Base.{
  ℕ, ◌+◌, ◌*◌, ◌/◌, ◌%◌, if◌then◌else◌, Bool, true, false, Option, none, some, List, [], ◌∷◌, ◌++◌,
  u32_max,
}
use nam_audio_pipe.Recording.Buffer.{AlignedBlock, AudioMetadata}
use nam_audio_pipe.Recording.Status.{Observed, mark_active, publish_space_warning}
use nam_audio_pipe.Recording.Summary.{CaptureSummary, push_segment, add_block}

-- `WavSink` with its `WavWriter`, and the warning that src/recording/space.rs computes in floating
-- point from the free bytes.
pub record WavSink : Type 1 where
  pub Writer : Type 0
  pub metadata : Writer → AudioMetadata
  pub would_overflow : ℕ → Writer → Bool
  pub write_block : AlignedBlock → Writer → Bool × Writer
  pub checkpoint_due : Writer → Bool
  pub checkpoint : Writer → Bool × Writer
  pub finalize : Writer → Bool × Writer
  -- The writer of a part and its path, or an error.
  pub create : ℕ → AudioMetadata → Option (Writer × ℕ)
  -- The free bytes at a probe.
  pub free_bytes : ℕ → AudioMetadata → Option ℕ
  pub low_space_warning : ℕ → AudioMetadata → Option ℕ

-- The locals of the loop. `finalized` are the files that were finalized and then closed, in order;
-- `probes` counts the space probes so far.
pub record Worker (S : WavSink) : Type 0 where
  pub wav_writer : Option S.Writer
  pub part_counter : ℕ
  pub status : Observed
  pub summary : CaptureSummary
  pub finalized : List S.Writer
  pub probes : ℕ

-- The `?` behind a call.
abbrev pub and_then :
    {S : WavSink} → Bool × Worker S → (Worker S → Bool × Worker S) → Bool × Worker S
and_then (true, s) f = f s
and_then (false, s) f = (false, s)

module _ {S : WavSink} where
  abbrev pub warn : Option ℕ → Worker S → Worker S
  warn warning s = record s { status = publish_space_warning warning s.status }

  abbrev pub status_for : AudioMetadata → Option ℕ → Worker S → Worker S
  status_for meta none s = warn none s
  status_for meta (some free) s = warn ((S.low_space_warning) free meta) s

  -- The estimate is a log line.
  unfoldable pub publish_space_status : AudioMetadata → Worker S → Worker S
  publish_space_status meta s =
      status_for meta ((S.free_bytes) s.probes meta) (record s { probes = s.probes + 1 })

  abbrev pub recheck : AudioMetadata → Option ℕ → Worker S → Worker S
  recheck meta none s = s
  recheck meta (some free) s = warn ((S.low_space_warning) free meta) s

  abbrev pub recheck_of : Option S.Writer → Worker S → Worker S
  recheck_of none s = s
  recheck_of (some w) s =
      let meta = (S.metadata) w in
      recheck meta ((S.free_bytes) s.probes meta) (record s { probes = s.probes + 1 })

  -- `maybe_check_space`, given whether the interval has passed.
  unfoldable pub maybe_check_space : Bool → Worker S → Worker S
  maybe_check_space false s = s
  maybe_check_space true s = recheck_of s.wav_writer s

  abbrev pub closed : Bool × S.Writer → Worker S → Bool × Worker S
  closed (true, w) s = (true, record s { wav_writer = none; finalized = s.finalized ++ w ∷ [] })
  closed (false, w) s = (false, record s { wav_writer = none })

  abbrev pub taken : Option S.Writer → Worker S → Bool × Worker S
  taken none s = (true, s)
  taken (some w) s = closed ((S.finalize) w) s

  -- `wav_writer.take()` and the finalization of what was there.
  unfoldable pub finalize_current : Worker S → Bool × Worker S
  finalize_current s = taken s.wav_writer s

  abbrev pub registered : AudioMetadata → Option (S.Writer × ℕ) → Worker S → Bool × Worker S
  registered meta none s = (false, s)
  registered meta (some (writer, filename)) s =
      let listed = record s {
        summary =
            push_segment
              (record {
                path = filename;
                data_bytes = 0;
                frames = 0;
                sample_rate = meta.sample_rate;
              })
              s.summary;
        status = mark_active filename s.status;
      } in
      (true, record (publish_space_status meta listed) { wav_writer = some writer })

  abbrev pub next_part : AudioMetadata → Worker S → Bool × Worker S
  next_part meta s =
      let part = (s.part_counter + 1) % (u32_max + 1) in
      registered meta ((S.create) part meta) (record s { part_counter = part })

  unfoldable pub open_new_part : AudioMetadata → Worker S → Bool × Worker S
  open_new_part meta s = and_then (finalize_current s) (next_part meta)

  abbrev pub checked : Bool × S.Writer → Worker S → Bool × Worker S
  checked (done, w) s = (done, record s { wav_writer = some w })

  abbrev pub written : AlignedBlock → Bool × S.Writer → Worker S → Bool × Worker S
  written b (false, w) s = (false, record s { wav_writer = some w })
  written b (true, w) s =
      let counted = record s {
        wav_writer = some w;
        summary = add_block (b.valid_len / 2) (b.valid_len * 4) s.summary;
      } in
      if (S.checkpoint_due) w then checked ((S.checkpoint) w) counted else (true, counted)

  abbrev pub write_to : Option S.Writer → AlignedBlock → Worker S → Bool × Worker S
  write_to none b s = (true, s)
  write_to (some w) b s = written b ((S.write_block) b w) s

  -- The second half of `write_block_with_overflow_rollover`.
  unfoldable pub write_current : AlignedBlock → Worker S → Bool × Worker S
  write_current b s = write_to s.wav_writer b s

  abbrev pub rolled : Option S.Writer → AlignedBlock → Worker S → Bool × Worker S
  rolled none b s = write_current b s
  rolled (some w) b s =
      if (S.would_overflow) b.valid_len w
      then and_then (open_new_part ((S.metadata) w) s) (write_current b)
      else write_current b s

  unfoldable pub write_block_with_overflow_rollover : AlignedBlock → Worker S → Bool × Worker S
  write_block_with_overflow_rollover b s = rolled s.wav_writer b s
