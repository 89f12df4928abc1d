-- ===== src/Tests/LogRuns.antt =====
-- src/standalone/pw_host/rt_log_ring.rs: a route that is armed, used and disarmed; strings that fit
-- and strings that are cut.
use nam_audio_pipe.Base.{
  ℕ, ◌≡◌, refl, ◌&&◌, ◌++◌, if◌then◌else◌, Bool, true, false, List, [], ◌∷◌, ltb, replicate,
}
use nam_audio_pipe.Recording.Spsc.{Spsc, bounded}
use nam_audio_pipe.Host.LogRing.{
  RtLogRecord, initial, try_offload, drain, capture, file_str, topic_str, msg_str,
}
use nam_audio_pipe.Host.LogRing.Events.{
  Event, log_call, drain_turn, install_call, restore_call, run, all_taken,
}
use nam_audio_pipe.Host.LogRing.Accounted.{IsKept, waiting, log_accounted}
use nam_audio_pipe.Host.LogRing.Text.{capture_text}

abbrev log_ring : Spsc RtLogRecord
log_ring = bounded RtLogRecord

abbrev entry : ℕ → RtLogRecord
entry line = record {
  level = 2;
  line = line;
  file_len = 0;
  topic_len = 0;
  msg_len = 1;
  file = [];
  topic = [];
  msg = 65 ∷ [];
}

-- A call before the install, two calls behind it with one turn of the drainer between them, one call
-- of another thread, and one behind the restore.
abbrev events : List Event
events =
    log_call true (entry 1)
    ∷ install_call false true
    ∷ log_call true (entry 2)
    ∷ drain_turn
    ∷ log_call true (entry 3)
    ∷ log_call false (entry 4)
    ∷ restore_call
    ∷ log_call true (entry 5)
    ∷ []

log_accounted_example :
    IsKept log_ring
      (all_taken log_ring events (initial log_ring))
      (waiting log_ring (run log_ring events (initial log_ring)).rt_producer)
      (run log_ring events (initial log_ring)).drained
      (run log_ring events (initial log_ring)).pw_log_dropped
    × ((marked : Bool) (r : RtLogRecord)
        → (try_offload log_ring marked r (run log_ring events (initial log_ring))).0
          ≡ ((run log_ring events (initial log_ring)).ring_mode && marked))
log_accounted_example = log_accounted log_ring events

two_taken : all_taken log_ring events (initial log_ring) ≡ entry 2 ∷ entry 3 ∷ []
unfolding try_offload drain
two_taken = refl

one_drained : (run log_ring events (initial log_ring)).drained ≡ entry 2 ∷ []
unfolding try_offload drain
one_drained = refl

-- Characters of one byte, and those of two bytes that begin with 195.
abbrev short_utf8 : List ℕ → Bool
short_utf8 [] = true
short_utf8 (b ∷ []) = ltb b 128
short_utf8 (b ∷ c ∷ rest) =
    let behind = short_utf8 rest in
    let next = short_utf8 (c ∷ rest) in
    if ltb b 128 then next else ltb 194 b && ltb b 196 && ltb 127 c && ltb c 192 && behind

-- 33 bytes, the last two of them one character.
abbrev long_topic : List ℕ
long_topic = replicate 31 97 ++ 195 ∷ 169 ∷ []

capture_text_example :
    (file_str short_utf8 (capture 2 7 (97 ∷ 46 ∷ 99 ∷ []) long_topic (replicate 300 65))
      ≡ 97 ∷ 46 ∷ 99 ∷ [])
    × (topic_str short_utf8 (capture 2 7 (97 ∷ 46 ∷ 99 ∷ []) long_topic (replicate 300 65)) ≡ [])
    × (msg_str short_utf8 (capture 2 7 (97 ∷ 46 ∷ 99 ∷ []) long_topic (replicate 300 65))
        ≡ replicate 256 65)
capture_text_example = capture_text short_utf8 2 7 (97 ∷ 46 ∷ 99 ∷ []) long_topic (replicate 300 65)
