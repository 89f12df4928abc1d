-- ===== src/Recording/Delivery/Queued.antt =====
-- What the two rings hold together: the events that are on their way, in order.
use mathlib.Core.Path.{subst}
use nam_audio_pipe.Base.{
  ℕ, ◌+◌, ◌≡◌, refl, sym, ◌∙◌, true, false, some, List, [], ◌∷◌, ◌++◌, length, arith, set,
  get_elem?, get_elem?-set_ne,
}
use nam_audio_pipe.Recording.Buffer.{
  AlignedBlock, AudioMetadata, ControlPayload, metadata, stream_stop, as_slice,
}
use nam_audio_pipe.Recording.Pool.{Descriptor, is_barrier}
use nam_audio_pipe.Recording.Pool.Session.{in_flight, only}
use nam_audio_pipe.Recording.Pool.Protocol.{barriers}
use nam_audio_pipe.Recording.Delivery.{Event, sound, new_format}

-- `end` is what the control ring holds behind the last metadata.
pub data Queued (slots : List AlignedBlock) (end : List ControlPayload)
    : List Descriptor → List ControlPayload → List Event → Type 0 where
  done : Queued slots end [] end []
  audio :
      {d : Descriptor} {ds : List Descriptor} {c : List ControlPayload} {es : List Event}
      {b : AlignedBlock} {xs : List ℕ}
      → is_barrier d ≡ false
      → get_elem? slots d.slot ≡ some b
      → as_slice b ≡ some xs
      → Queued slots end ds c es
      → Queued slots end (d ∷ ds) c (sound xs ∷ es)
  format :
      {d : Descriptor} {ds : List Descriptor} {c : List ControlPayload} {es : List Event} {q : ℕ}
      {m : AudioMetadata}
      → is_barrier d ≡ true
      → q ≡ d.valid_len
      → Queued slots end ds c es
      → Queued slots end (d ∷ ds) (metadata q m ∷ c) (new_format m ∷ es)

module _ {slots : List AlignedBlock} where
  pub Queued-set :
      {end : List ControlPayload} {ds : List Descriptor} {c : List ControlPayload} {es : List Event}
      (i : ℕ) (b : AlignedBlock)
      → Queued slots end ds c es
      → in_flight (only i) ds ≡ 0
      → Queued (set slots i b) end ds c es
  Queued-set i b done free = done
  Queued-set i b (audio {d = d} {ds = ds} h g r q) free =
      audio h (get_elem?-set_ne slots i d.slot b (λ e. ground arith) ∙ g) r
        (Queued-set i b q (ground arith))
  Queued-set i b (format {ds = ds} h e q) free = format h e (Queued-set i b q (ground arith))

  pub Queued-audio :
      {end : List ControlPayload} {ds : List Descriptor} {c : List ControlPayload} {es : List Event}
      (d : Descriptor) {b : AlignedBlock} {xs : List ℕ}
      → Queued slots end ds c es
      → is_barrier d ≡ false
      → get_elem? slots d.slot ≡ some b
      → as_slice b ≡ some xs
      → Queued slots end (ds ++ d ∷ []) c (es ++ sound xs ∷ [])
  Queued-audio d done h g r = audio h g r done
  Queued-audio d (audio h' g' r' q) h g r = audio h' g' r' (Queued-audio d q h g r)
  Queued-audio d (format h' e q) h g r = format h' e (Queued-audio d q h g r)

  pub Queued-format :
      {ds : List Descriptor} {c : List ControlPayload} {es : List Event} (d : Descriptor)
      (m : AudioMetadata)
      → Queued slots [] ds c es
      → is_barrier d ≡ true
      → Queued slots [] (ds ++ d ∷ []) (c ++ metadata d.valid_len m ∷ []) (es ++ new_format m ∷ [])
  Queued-format d m done h = format h refl done
  Queued-format d m (audio h' g' r' q) h = audio h' g' r' (Queued-format d m q h)
  Queued-format d m (format h' e q) h = format h' e (Queued-format d m q h)

  pub Queued-stop :
      {ds : List Descriptor} {c : List ControlPayload} {es : List Event}
      → Queued slots [] ds c es
      → Queued slots (stream_stop ∷ []) ds (c ++ stream_stop ∷ []) es
  Queued-stop done = done
  Queued-stop (audio h g r q) = audio h g r (Queued-stop q)
  Queued-stop (format h e q) = format h e (Queued-stop q)

  -- Each barrier of the work ring has its metadata in the control ring.
  pub barriers-Queued :
      {end : List ControlPayload} {ds : List Descriptor} {c : List ControlPayload} {es : List Event}
      → Queued slots end ds c es
      → barriers ds + length end ≡ length c
  barriers-Queued done = omega arith
  barriers-Queued (audio h g r q) = ground (arith, barriers-Queued q)
  barriers-Queued (format h e q) = ground (arith, barriers-Queued q)

-- The same queue, where what it is about is spelled otherwise.
pub Queued-of :
    {slots slots' : List AlignedBlock} {end end' : List ControlPayload} {ds ds' : List Descriptor}
    {c c' : List ControlPayload} {es : List Event}
    → slots' ≡ slots
    → end' ≡ end
    → ds' ≡ ds
    → c' ≡ c
    → Queued slots end ds c es
    → Queued slots' end' ds' c' es
Queued-of {slots} {slots'} {end} {end'} {ds} {ds'} {c} {c'} {es} p r t u q =
    subst (λ x. Queued x end' ds' c' es) (sym p)
      (subst (λ x. Queued slots x ds' c' es) (sym r)
        (subst (λ x. Queued slots end x c' es) (sym t)
          (subst (λ x. Queued slots end ds x es) (sym u) q)))
