-- ===== src/Tests/CallbackRuns.antt =====
-- src/standalone/pw_host/rt_callback/process.rs: two quanta and two pairs of channels;
-- src/recording/alert.rs: a failure that is polled three times.
use nam_audio_pipe.Base.{ℕ, ◌≡◌, refl, ◌||◌, if◌then◌else◌, true, false, none, some, [], ◌∷◌, arith}
use nam_audio_pipe.Recording.Buffer.{new_uninit}
use nam_audio_pipe.Recording.Status.{failed}
use nam_audio_pipe.Recording.Transport.{pool_transport, enabled}
use nam_audio_pipe.Recording.Delivery.Arrival.{opened}
use nam_audio_pipe.Recording.Alert.{failure, RecordingAlert, poll}
use nam_audio_pipe.Recording.Alert.Cadence.{alerts_paced, AreReminders, emitted}
use nam_audio_pipe.Host.Callback.Buffers.{
  Host, Channel, ChunkPtr, Data, check_ffi_contract, check_spa_buffer_pair,
  validate_spa_channel_pair, handle_spa_pair_fail_closed,
}
use nam_audio_pipe.Host.Callback.Safety.{IsSafePair, accepted_safe, rejected_silent, is_cleared}
use nam_audio_pipe.Host.Callback.Recorder.{Recorder, Quantum}
use nam_audio_pipe.Host.Callback.Account.Quanta.{
  AreAccounted, record_quanta, fresh_recorder, quanta_accounted,
}
use nam_audio_pipe.Host.Callback.Process.{process_dsp_buffer}
use nam_audio_pipe.Host.Callback.Process.Closed.{IsClosed, process_dsp_buffer-IsClosed}
use nam_audio_pipe.Tests.DeliveryRuns.{rings, ready}

-- Four frames.
abbrev left : Channel
left = record { ptr = 4096; max = 64; offset = 0; size = 16 }

abbrev right : Channel
right = record { ptr = 8192; max = 64; offset = 8; size = 16 }

-- It begins inside the left region.
abbrev overlapping : Channel
overlapping = record { ptr = 4104; max = 64; offset = 0; size = 16 }

abbrev chunk : ChunkPtr
chunk = record { address = 16; chunk = record { offset = 0; size = 16; stride = 4; flags = 0 } }

abbrev host : Host
host = record { violation = false; memory = λ a. 7 }

accepted_safe_example :
    ((handle_spa_pair_fail_closed 8192 left chunk right chunk host).1 ≡ host)
    × IsSafePair 8192 left right 16 4
unfolding handle_spa_pair_fail_closed validate_spa_channel_pair check_spa_buffer_pair
    check_ffi_contract
accepted_safe_example =
    accepted_safe 8192 left right chunk chunk host 16 4 (omega arith) (omega arith) refl

rejected_silent_example :
    ((handle_spa_pair_fail_closed 8192 left chunk overlapping chunk host).1.violation ≡ true)
    × ((a : ℕ)
        → (handle_spa_pair_fail_closed 8192 left chunk overlapping chunk host).1.memory a
          ≡ (if is_cleared 8192 left a || is_cleared 8192 overlapping a then 0 else 7))
unfolding handle_spa_pair_fail_closed validate_spa_channel_pair check_spa_buffer_pair
    check_ffi_contract
rejected_silent_example = rejected_silent 8192 left overlapping chunk chunk host refl

abbrev recorder : Recorder rings
recorder = record {
  sender = pool_transport (enabled ready);
  meta_sent = false;
  meta_rate = 0;
  data_available = some false;
  block = new_uninit 4;
  overrun_count = 0;
  overrun_frames = 0;
}

-- The rate changes between the two.
abbrev first : Quantum
first = record {
  rate = 44100;
  n_pw = 2;
  left = 1 ∷ 2 ∷ 0 ∷ [];
  right = 3 ∷ 4 ∷ 0 ∷ [];
  failed_before = some false;
  failed_behind = some false;
}

abbrev second : Quantum
second = record first { rate = 48000 }

quanta_accounted_example :
    AreAccounted
      (λ r. r)
      (first ∷ second ∷ [])
      (opened ready)
      0
      (record_quanta (λ r. r) (first ∷ second ∷ []) (fresh_recorder ready 0 recorder))
quanta_accounted_example =
    quanta_accounted (λ r. r) (first ∷ second ∷ []) ready 0 recorder (λ h. h, (λ h. h, tt))

-- The failure on record has another reason.
abbrev on_record : RecordingAlert
on_record = record { active_reason = some 4; active_kind = some failure; last_emit = some 90 }

alerts_paced_example :
    ((poll 100 (some (failed 5)) on_record).0
      ≡ some (record { kind = failure; reason = 5; reminder = false }))
    × AreReminders failure 5 100 (
        emitted
          ((200, none) ∷ (300, some (failed 5)) ∷ (30100, some (failed 5)) ∷ [])
          (poll 100 (some (failed 5)) on_record).1)
alerts_paced_example =
    alerts_paced failure 5 100 (failed 5)
      ((200, none) ∷ (300, some (failed 5)) ∷ (30100, some (failed 5)) ∷ []) on_record refl
      (λ e. cc) (refl, (refl, tt))

abbrev data_left : Data
data_left = record { ptr = 4096; maxsize = 64; chunk = chunk }

abbrev data_right : Data
data_right = record { ptr = 8192; maxsize = 64; chunk = chunk }

process_dsp_buffer-IsClosed_example :
    IsClosed 8192
      (λ r. r)
      data_left
      data_right
      []
      first
      recorder
      host
      (process_dsp_buffer 8192 (λ r. r) true (data_left ∷ data_right ∷ []) first recorder host)
process_dsp_buffer-IsClosed_example =
    process_dsp_buffer-IsClosed 8192 (λ r. r) data_left data_right [] first recorder host
      (omega arith) (omega arith)
