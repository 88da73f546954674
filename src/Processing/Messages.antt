-- ===== src/Processing/Messages.antt =====
-- processing.rs: what a series of rounds is to pass on.
use astra_camilla_dsp.Common.{◌≡◌, Bool, true, false, Option, none, some, List, [], ◌∷◌, ◌>>=◌}
use astra_camilla_dsp.Common.{Yields}
use astra_camilla_dsp.Arith.{Arith}
use astra_camilla_dsp.Config.Diff.{ConfigChange}
use astra_camilla_dsp.Config.Pipeline.{Sections}
use astra_camilla_dsp.Filters.Volume.{Casts}
use astra_camilla_dsp.Params.{Params}
use astra_camilla_dsp.Pipeline.{FilterTrait, ThreadPool, ProcessorTrait}
use astra_camilla_dsp.Pipeline.Build.{Constructors}
use astra_camilla_dsp.Pipeline.Process.{process_chunk}
use astra_camilla_dsp.Pipeline.Start.{Devices, new_pipeline}
use astra_camilla_dsp.Pipeline.Update.{Updates, update_parameters}
use astra_camilla_dsp.Processing.{AudioMessage, audio, end_of_stream, pause, Event, Running, Turn}
use astra_camilla_dsp.Processing.{goes_on, ends}

abbrev pub is_end : {S : Type 0} → AudioMessage S → Bool
is_end (audio c) = false
is_end end_of_stream = true
is_end pause = false

module _ {S A : Type 0} where
  abbrev pub sent_of : Turn S A → List (AudioMessage S)
  sent_of (goes_on sent s) = sent
  sent_of (ends sent s) = sent

  abbrev pub has_ended : Turn S A → Bool
  has_ended (goes_on sent s) = false
  has_ended (ends sent s) = true

module _ {R S FC PC : Type 0} where
  abbrev pub changes_devices : Option (ConfigChange × Devices R × Sections S FC PC) → Bool
  changes_devices none = false
  changes_devices (some (ConfigChange.devices, devices, sections)) = true
  changes_devices (some (change, devices, sections)) = false

-- The messages `more` behind one, and whether the loop has ended: nothing is behind the end of the
-- stream, which a change of devices brings about; else `rest` holds.
abbrev pub Behind : {S : Type 0} → Bool → Bool → List (AudioMessage S) → Bool → Type 0 → Type 0
Behind true devices more ended rest = (more ≡ []) × (ended ≡ true)
Behind false true more ended rest = (more ≡ end_of_stream ∷ []) × (ended ≡ true)
Behind false false more ended rest = rest

module _ {R S F P FC PC : Type 0} ⦃r : Arith R⦄ ⦃a : Arith S⦄ ⦃cast : Casts R S⦄
    ⦃ft : FilterTrait S F (Params R)⦄ ⦃pool : ThreadPool S F (Params R)⦄ ⦃pt : ProcessorTrait S P⦄
    (make : Constructors F P FC PC) (u : Updates F P FC PC) where
  -- What is due for a message that came, and the state behind it: a chunk is processed; a channel that
  -- fails ends the stream.
  abbrev pub answer :
      Option (AudioMessage S) → R → Running R S F P → Option (AudioMessage S × Running R S F P)
  answer (some (audio chunk)) secs s = do
    out ← process_chunk s.pipeline s.params (chunk, s.stash) secs
    some (audio (out.2).0, record { pipeline = out.0; params = out.1; stash = (out.2).1 })
  answer (some end_of_stream) secs s = some (end_of_stream, s)
  answer (some pause) secs s = some (pause, s)
  answer none secs s = some (end_of_stream, s)

  -- The state behind a change of configuration that is not one of devices.
  abbrev pub renew :
      Option (ConfigChange × Devices R × Sections S FC PC)
      → Running R S F P
      → Option (Running R S F P)
  renew none s = some s
  renew (some (ConfigChange.pipeline, devices, sections)) s = do
    pipeline ← new_pipeline make devices sections s.params
    some (record s { pipeline = pipeline })
  renew (some (ConfigChange.mixer_parameters, devices, sections)) s = do
    pipeline ← new_pipeline make devices sections s.params
    some (record s { pipeline = pipeline })
  renew (some (ConfigChange.filter_parameters fs ms ps, devices, sections)) s = do
    pipeline ← update_parameters u s.pipeline sections fs ms ps
    some (record s { pipeline = pipeline })
  renew (some (ConfigChange.devices, devices, sections)) s = some s
  renew (some (ConfigChange.unchanged, devices, sections)) s = some s

  -- The messages that were sent, and whether the loop has ended: for each event the message that is due
  -- from the state behind the events before it, until one is refused or the stream ends.
  abbrev pub Passes :
      List (Event R S FC PC) → Running R S F P → List (AudioMessage S) → Bool → Type 0
  Passes [] s sent ended = (sent ≡ []) × (ended ≡ false)
  Passes (e ∷ es) s [] ended = (e.accepts ≡ false) × (ended ≡ true)
  Passes (e ∷ es) s (msg ∷ more) ended =
      (e.accepts ≡ true)
      × Yields
          (λ due.
            (due.0 ≡ msg)
            × Behind (is_end msg) (changes_devices e.change) more ended
                (Yields (λ s'. Passes es s' more ended) (renew e.change due.1)))
          (answer e.received e.secs_elapsed (record s { params = e.control s.params }))
