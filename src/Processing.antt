-- ===== src/Processing.antt =====
-- processing.rs: the loop of the processing thread, between the channels from the capture device and
-- to the playback device. Each round is an event: what is received, whether the other end still takes
-- messages, and the change of configuration that waits. The spectrum and the priority of the thread
-- are left out; `none` is a panic.
pub mod Messages
pub mod Stream
pub mod Width
mod Tests
use astra_camilla_dsp.Common.{Bool, Option, none, some, List, [], ◌∷◌, ◌++◌, if◌then◌else◌, ◌>>=◌}
use astra_camilla_dsp.Arith.{Arith, nought}
use astra_camilla_dsp.AudioChunk.{AudioChunk}
use astra_camilla_dsp.Config.Diff.{ConfigChange}
use astra_camilla_dsp.Config.Pipeline.{Sections}
use astra_camilla_dsp.Filters.Volume.{Casts}
use astra_camilla_dsp.Params.{Params}
use astra_camilla_dsp.Pipeline.{ThreadPool, FilterTrait, ProcessorTrait}
use astra_camilla_dsp.Pipeline.Build.{Constructors}
use astra_camilla_dsp.Pipeline.Process.{Pipeline, process_chunk}
use astra_camilla_dsp.Pipeline.Start.{Devices, new_pipeline}
use astra_camilla_dsp.Pipeline.Update.{Updates, update_parameters}
use astra_camilla_dsp.Stash.{Stash}

-- audiodevice.rs
pub data AudioMessage (S : Type 0) : Type 0 where
  audio : AudioChunk S → AudioMessage S
  end_of_stream pause : AudioMessage S

-- One round of the loop: what the control side does to the shared parameters, what is received (no
-- message is an error of the channel), the time that processing takes, and the change that waits.
pub record Event (R S FC PC : Type 0) : Type 0 where
  pub control : Params R → Params R
  pub received : Option (AudioMessage S)
  pub accepts : Bool
  pub secs_elapsed : R
  pub change : Option (ConfigChange × Devices R × Sections S FC PC)
  pub accepts_end : Bool

pub record Running (R S F P : Type 0) : Type 0 where
  pub pipeline : Pipeline R S F P
  pub params : Params R
  pub stash : Stash S

-- The messages that were delivered, and whether the loop goes on.
pub data Turn (S A : Type 0) : Type 0 where
  goes_on : List (AudioMessage S) → A → Turn S A
  ends : List (AudioMessage S) → A → Turn S A

module _ {S A : Type 0} where
  -- A message that the loop ends with if it is not taken.
  abbrev pub send : Bool → AudioMessage S → A → Turn S A
  send accepts msg s = if accepts then goes_on (msg ∷ []) s else ends [] s

  -- The message before the loop ends.
  abbrev pub send_last : Bool → AudioMessage S → A → Turn S A
  send_last accepts msg s = ends (if accepts then msg ∷ [] else []) s

  abbrev pub prepend : List (AudioMessage S) → Turn S A → Turn S A
  prepend sent (goes_on more s) = goes_on (sent ++ more) s
  prepend sent (ends more s) = ends (sent ++ more) s

module _ {R S F P FC PC : Type 0} ⦃r : Arith R⦄ ⦃a : Arith S⦄ ⦃cast : Casts R S⦄
    ⦃ft : FilterTrait S F (Params R)⦄ ⦃pool : ThreadPool S F (Params R)⦄ ⦃pt : ProcessorTrait S P⦄
    (make : Constructors F P FC PC) (u : Updates F P FC PC) where
  -- The match on what is received.
  unfoldable pub receive :
      Option (AudioMessage S) → Bool → R → Running R S F P → Option (Turn S (Running R S F P))
  receive (some (audio chunk)) accepts secs s = do
    out ← process_chunk s.pipeline s.params (chunk, s.stash) secs
    some (
        send accepts (audio (out.2).0)
          (record { pipeline = out.0; params = out.1; stash = (out.2).1 }))
  receive (some end_of_stream) accepts secs s = some (send_last accepts end_of_stream s)
  receive (some pause) accepts secs s = some (send accepts pause s)
  receive none accepts secs s = some (send_last accepts end_of_stream s)

  unfoldable pub rebuild :
      Devices R → Sections S FC PC → Running R S F P → Option (Turn S (Running R S F P))
  rebuild devices sections s = do
    pipeline ← new_pipeline make devices sections s.params
    some (goes_on [] (record s { pipeline = pipeline }))

  -- The match on the change that waits.
  unfoldable pub reconfigure :
      Option (ConfigChange × Devices R × Sections S FC PC)
      → Bool
      → Running R S F P
      → Option (Turn S (Running R S F P))
  unfolding rebuild
  reconfigure none accepts_end s = some (goes_on [] s)
  reconfigure (some (ConfigChange.pipeline, devices, sections)) accepts_end s =
      rebuild devices sections s
  reconfigure (some (ConfigChange.mixer_parameters, devices, sections)) accepts_end s =
      rebuild devices sections s
  reconfigure (some (ConfigChange.filter_parameters fs ms ps, devices, sections)) accepts_end s = do
    pipeline ← update_parameters u s.pipeline sections fs ms ps
    some (goes_on [] (record s { pipeline = pipeline }))
  reconfigure (some (ConfigChange.devices, devices, sections)) accepts_end s =
      if accepts_end then some (ends (end_of_stream ∷ []) s) else none
  reconfigure (some (ConfigChange.unchanged, devices, sections)) accepts_end s = some (goes_on [] s)

  -- The body of the loop: a round that ends it does not look for a change.
  unfoldable pub round : Event R S FC PC → Running R S F P → Option (Turn S (Running R S F P))
  round e s =
      receive e.received e.accepts e.secs_elapsed (record s { params = e.control s.params })
      >>= λ turn. elim turn [
        | ends sent t ↦ some (ends sent t)
        | goes_on sent t ↦ do
          after ← reconfigure e.change e.accepts_end t
          some (prepend sent after)
      ]

  -- The loads are set to zero behind the loop.
  abbrev pub stopped : Running R S F P → Running R S F P
  stopped s = record s {
    params = record (s.params) { processing_load = nought; resampler_load = nought };
  }

  -- The rounds for a series of events; the loop is still running behind a `goes_on`.
  unfoldable pub run : List (Event R S FC PC) → Running R S F P → Option (Turn S (Running R S F P))
  run [] s = some (goes_on [] s)
  run (e ∷ es) s = round e s >>= λ turn. elim turn [
    | ends sent t ↦ some (ends sent (stopped t))
    | goes_on sent t ↦ do rest ← run es t; some (prepend sent rest)
  ]
