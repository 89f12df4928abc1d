-- ===== src/Host/Callback/Account/Quanta.antt =====
-- src/standalone/pw_host/rt_callback/process.rs: where the samples of quanta one behind the other go.
use nam_audio_pipe.Base.{ℕ, ◌≡◌, refl, true, false, List, [], ◌∷◌, none}
use nam_audio_pipe.Recording.Transport.{Rings, Live, pool_transport, enabled}
use nam_audio_pipe.Recording.Delivery.{Link, Runs, here}
use nam_audio_pipe.Recording.Delivery.Arrival.{opened}
use nam_audio_pipe.Recording.Disk.Parts.{Played, played}
use nam_audio_pipe.Host.Callback.Recorder.{Recorder, is_failed, Quantum, record_quantum}
use nam_audio_pipe.Host.Callback.Account.{IsFollowing}
use nam_audio_pipe.Host.Callback.Account.Samples.{Outcome, record_quantum-IsAccounted, Runs-append}

-- The outcomes of quanta one behind the other.
pub data Outcomes (f32_bits : ℕ → ℕ)
    : List Played → ℕ → List Quantum → List Played → ℕ → Type 0 where
  start : (ps : List Played) (n : ℕ) → Outcomes f32_bits ps n [] ps n
  more :
      {qs : List Quantum} {ps rs us : List Played} {n m k : ℕ} (q : Quantum)
      → Outcome f32_bits q ps n rs m
      → Outcomes f32_bits rs m qs us k
      → Outcomes f32_bits ps n (q ∷ qs) us k

abbrev pub record_quanta : {R : Rings} → (ℕ → ℕ) → List Quantum → Recorder R → Recorder R
record_quanta f32_bits [] s = s
record_quanta f32_bits (q ∷ qs) s = record_quanta f32_bits qs (record_quantum f32_bits q s)

-- In each quantum a failure flag that is raised before the DSP is still raised behind it.
abbrev pub IsSticky : List Quantum → Type 0
IsSticky [] = Unit
IsSticky (q ∷ qs) =
    (is_failed q.failed_before ≡ true → is_failed q.failed_behind ≡ true) × IsSticky qs

pub record AreAccounted {R : Rings} (f32_bits : ℕ → ℕ) (qs : List Quantum) (l : Link R) (n : ℕ)
    (t : Recorder R) : Type 0 where
  pub link : Link R
  pub runs : Runs l link
  pub following : IsFollowing f32_bits t link
  pub outcomes :
      Outcomes f32_bits (played none l.accepted) n qs (played none link.accepted) t.overrun_frames

-- A recorder at the start of a session, over a transport with both channels.
abbrev pub fresh_recorder : {R : Rings} → Live R → ℕ → Recorder R → Recorder R
fresh_recorder live n s = record s {
  sender = pool_transport (enabled live);
  meta_sent = false;
  overrun_frames = n;
}

record_quanta-AreAccounted :
    {R : Rings} (f32_bits : ℕ → ℕ) (qs : List Quantum) (l : Link R) (s : Recorder R)
    → IsFollowing f32_bits s l
    → IsSticky qs
    → AreAccounted f32_bits qs l s.overrun_frames (record_quanta f32_bits qs s)
record_quanta-AreAccounted f32_bits [] l s v sticky = record {
  link = l;
  runs = here;
  following = v;
  outcomes = start _ _;
}
record_quanta-AreAccounted f32_bits (q ∷ qs) l s v sticky =
    let o = record_quantum-IsAccounted f32_bits q l s v sticky.0 in
    let r =
      record_quanta-AreAccounted f32_bits qs o.link (record_quantum f32_bits q s) o.following
        sticky.1 in
    record {
      link = r.link;
      runs = Runs-append o.runs r.runs;
      following = r.following;
      outcomes = more q o.outcome r.outcomes;
    }

-- For a failure flag that stays raised: quanta of the callback over a fresh recorder are calls of the
-- transport. Of each of them, in order, either the samples were accepted, as a block in the format of
-- the quantum's own rate, while no loss was counted; or their frames were added to the lost ones; or
-- there were none or the failure flag was raised, and nothing was recorded or counted.
pub quanta_accounted :
    {R : Rings} (f32_bits : ℕ → ℕ) (qs : List Quantum) (live : Live R) (n : ℕ) (s : Recorder R)
    → IsSticky qs
    → AreAccounted f32_bits qs (opened live) n (record_quanta f32_bits qs (fresh_recorder live n s))
quanta_accounted f32_bits qs live n s sticky =
    record_quanta-AreAccounted f32_bits qs (opened live) (fresh_recorder live n s)
      (record { sender = refl; running = refl; format = λ h. cc }) sticky
