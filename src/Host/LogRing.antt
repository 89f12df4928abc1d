-- ===== src/Host/LogRing.antt =====
-- src/standalone/pw_host/rt_log_ring.rs: the ring that takes PipeWire's log events off the RT thread.
-- A string is the list of its bytes, an `i32` its bit pattern. The ring is rtrb's, the test for valid
-- UTF-8 the standard library's. The environment variable, the spawn of the drainer and the mark of the
-- calling thread are arguments. `drained` is what the drainer handed to `emit_rt_record`.
pub mod Events
pub mod Routed
pub mod Accounted
pub mod Text
use nam_audio_pipe.Base.{
  ℕ, ◌+◌, ◌%◌, ◌&&◌, not, if◌then◌else◌, Bool, true, false, Option, none, some, List, [], ◌∷◌, ◌++◌,
  length, is_some, min, take, drop, replicate, u64_max,
}
use nam_audio_pipe.Recording.Spsc.{Spsc}

abbrev pub rt_ring_capacity : ℕ
rt_ring_capacity = 1024

abbrev pub file_cap : ℕ
file_cap = 48

abbrev pub topic_cap : ℕ
topic_cap = 32

abbrev pub msg_cap : ℕ
msg_cap = 256

pub record RtLogRecord : Type 0 where
  pub level : ℕ
  pub line : ℕ
  pub file_len : ℕ
  pub topic_len : ℕ
  pub msg_len : ℕ
  pub file : List ℕ
  pub topic : List ℕ
  pub msg : List ℕ

-- The field behind the copy, and the stored length.
unfoldable pub copy_bounded : List ℕ → List ℕ → List ℕ × ℕ
copy_bounded dst src =
    let n = min (length src) (length dst) in (take n src ++ drop n dst, n % 65536)

unfoldable pub capture : ℕ → ℕ → List ℕ → List ℕ → List ℕ → RtLogRecord
capture level line file topic msg =
    let file_field = copy_bounded (replicate file_cap 0) file in
    let topic_field = copy_bounded (replicate topic_cap 0) topic in
    let msg_field = copy_bounded (replicate msg_cap 0) msg in
    record {
      level = level;
      line = line;
      file_len = file_field.1;
      topic_len = topic_field.1;
      msg_len = msg_field.1;
      file = file_field.0;
      topic = topic_field.0;
      msg = msg_field.0;
    }

-- "<invalid>" and "<non-utf8>".
abbrev pub invalid_text : List ℕ
invalid_text = 60 ∷ 105 ∷ 110 ∷ 118 ∷ 97 ∷ 108 ∷ 105 ∷ 100 ∷ 62 ∷ []

abbrev pub non_utf8_text : List ℕ
non_utf8_text = 60 ∷ 110 ∷ 111 ∷ 110 ∷ 45 ∷ 117 ∷ 116 ∷ 102 ∷ 56 ∷ 62 ∷ []

-- `std::str::from_utf8` followed by `unwrap_or`.
abbrev pub text_or : (List ℕ → Bool) → List ℕ → List ℕ → List ℕ
text_or is_utf8 bytes default = if is_utf8 bytes then bytes else default

module _ (is_utf8 : List ℕ → Bool) where
  abbrev pub file_str : RtLogRecord → List ℕ
  file_str r = text_or is_utf8 (take (min r.file_len file_cap) r.file) invalid_text

  abbrev pub topic_str : RtLogRecord → List ℕ
  topic_str r = text_or is_utf8 (take (min r.topic_len topic_cap) r.topic) []

  abbrev pub msg_str : RtLogRecord → List ℕ
  msg_str r = text_or is_utf8 (take (min r.msg_len msg_cap) r.msg) non_utf8_text

module _ (R : Spsc RtLogRecord) where
  pub record LogRing : Type 0 where
    pub rt_producer : Option R.Ring
    pub ring_mode : Bool
    pub rt_ring_installed : Bool
    pub pw_log_dropped : ℕ
    pub drained : List RtLogRecord

  abbrev pub initial : LogRing
  initial = record {
    rt_producer = none;
    ring_mode = false;
    rt_ring_installed = false;
    pw_log_dropped = 0;
    drained = [];
  }

  abbrev pub fail_closed : LogRing → LogRing
  fail_closed s = record s { rt_ring_installed = false; ring_mode = false }

  abbrev pub seated : Option R.Ring → LogRing → LogRing
  seated none s = record s {
    rt_producer = some (R.new rt_ring_capacity);
    rt_ring_installed = true;
    ring_mode = true;
  }
  seated (some ring) s = fail_closed s

  abbrev pub install : Bool → Bool → LogRing → LogRing
  install rollback spawned s =
      if rollback
      then s
      else if s.rt_ring_installed
      then record s { ring_mode = true }
      else if not spawned
      then fail_closed s
      else seated s.rt_producer s

  abbrev pub restore_deactivate : LogRing → LogRing
  restore_deactivate s = record s { ring_mode = false }

  abbrev pub push_or_count : Bool × R.Ring → LogRing → LogRing
  push_or_count (true, ring) s = record s { rt_producer = some ring }
  push_or_count (false, ring) s = record s {
    rt_producer = some ring;
    pw_log_dropped = (s.pw_log_dropped + 1) % (u64_max + 1);
  }

  abbrev pub offload : Option R.Ring → RtLogRecord → LogRing → Bool × LogRing
  offload none r s = (false, s)
  offload (some ring) r s = (true, push_or_count (R.push ring r) s)

  unfoldable pub try_offload : Bool → RtLogRecord → LogRing → Bool × LogRing
  try_offload marked r s = if s.ring_mode && marked then offload s.rt_producer r s else (false, s)

  abbrev pub emitted : Option RtLogRecord × R.Ring → LogRing → LogRing
  emitted (none, ring) s = record s { rt_producer = some ring }
  emitted (some r, ring) s = record s { rt_producer = some ring; drained = s.drained ++ r ∷ [] }

  -- One turn of `drain_loop`.
  abbrev pub drain_from : Option R.Ring → LogRing → LogRing
  drain_from none s = s
  drain_from (some ring) s = emitted (R.pop ring) s

  unfoldable pub drain : LogRing → LogRing
  drain s = drain_from s.rt_producer s
