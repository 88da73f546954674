-- ===== src/Pipeline.antt =====
-- pipeline.rs: the series of steps that a chunk goes through. The traits `Filter` and `Processor`
-- are records of operations; the pipeline is generic in the types that implement them.
pub mod Ranges
pub mod Merge
pub mod Alone
pub mod Lanes
pub mod Widths
pub mod Equivalence
pub mod Build
pub mod Safe
pub mod Validated
pub mod Process
pub mod Update
pub mod Start
pub mod Running
pub mod Tests
use astra_camilla_dsp.Common.{ℕ, zero, suc, Option, none, some, List, [], ◌∷◌, ◌++◌, map, length}
use astra_camilla_dsp.Common.{get_elem?, set, drop, replicate, ◌>>=◌}
use astra_camilla_dsp.Mixer as Mix
use astra_camilla_dsp.Arith.{Arith}
use astra_camilla_dsp.AudioChunk.{AudioChunk}
use astra_camilla_dsp.Stash.{Stash}
use astra_camilla_dsp.Mixer.{Mixer}

-- trait Filter (filters/mod.rs). A filter works on a waveform and on what the filters share, which in
-- the code are the faders behind `Arc<ProcessingParameters>`. `none` is a panic; no implementation
-- returns an error.
pub record FilterTrait (S F W : Type 0) : Type 0 where
  pub process_waveform : F → List S × W → Option ((List S × W) × F)

-- A filter that uses its own state only.
abbrev pub local :
    {S F W : Type 0}
    → (F → List S → Option (List S × F))
    → F
    → List S × W
    → Option ((List S × W) × F)
local process f (w, shared) = do out ← process f w; some ((out.0, shared), out.1)

abbrev pub local_filter : {S F W : Type 0} → (F → List S → Option (List S × F)) → FilterTrait S F W
local_filter process = record { process_waveform = local process }

-- trait Processor (processors/mod.rs).
pub record ProcessorTrait (S P : Type 0) : Type 0 where
  pub process_chunk : P → AudioChunk S → Option (AudioChunk S × P)

pub record FilterGroup (F : Type 0) : Type 0 where
  pub channel : ℕ
  pub filters : List F

pub data Step (S F P : Type 0) : Type 0 where
  mixer_step : Mixer S → Step S F P
  filter_step : FilterGroup F → Step S F P
  parallel_step : List (List F) → Step S F P
  processor_step : P → Step S F P

-- A pair of the parallel iterator: the filters that have run, those that are left, and the waveform.
pub record Lane (S F : Type 0) : Type 0 where
  pub done : List F
  pub left : List F
  pub waveform : List S

-- The thread pool of the crate rayon: which pair makes the next call of a filter, for as long as the
-- order lasts. It may depend on everything.
pub record ThreadPool (S F W : Type 0) : Type 0 where
  pub order : List (Lane S F) → W → List ℕ

module _ {S F W : Type 0} ⦃ft : FilterTrait S F W⦄ where
  -- `for filter in &mut self.filters { filter.process_waveform(w)?; }`
  pub run_filters : List F → List S × W → Option (List F × (List S × W))
  run_filters [] x = some ([], x)
  run_filters (f ∷ fs) x = do
    first ← ft.process_waveform f x
    rest ← run_filters fs first.0
    some (first.1 ∷ rest.0, rest.1)

  -- An empty waveform is an unused channel, and is left alone.
  pub run_channel : List F → List S × W → Option (List F × (List S × W))
  run_channel fs ([], shared) = some (fs, ([], shared))
  run_channel fs (x ∷ w, shared) = run_filters fs (x ∷ w, shared)

  -- `FilterGroup::process_chunk`, on the waveforms of the chunk.
  pub run_group : ℕ → List F → List (List S) × W → Option (List F × (List (List S) × W))
  run_group channel fs (waveforms, shared) = do
    w ← get_elem? waveforms channel
    out ← run_channel fs (w, shared)
    some (out.0, (set waveforms channel out.1.0, out.1.1))

  -- The call of the first of the filters that are left, if there is one.
  pub call_first : List F → Lane S F → W → Option (Lane S F × W)
  call_first [] lane shared = some (lane, shared)
  call_first (f ∷ fs) lane shared = do
    out ← ft.process_waveform f (lane.waveform, shared)
    some (record { done = lane.done ++ (out.1 ∷ []); left = fs; waveform = out.0.0 }, out.0.1)

  pub pick : ℕ → List (Lane S F) → W → Option (List (Lane S F) × W)
  pick i [] shared = some ([], shared)
  pick zero (lane ∷ lanes) shared = do
    out ← call_first lane.left lane shared
    some (out.0 ∷ lanes, out.1)
  pick (suc i) (lane ∷ lanes) shared = do out ← pick i lanes shared; some (lane ∷ out.0, out.1)

  -- The calls that are left, pair by pair.
  pub finish : List (Lane S F) → W → Option (List (Lane S F) × W)
  finish [] shared = some ([], shared)
  finish (lane ∷ lanes) shared = do
    out ← run_filters lane.left (lane.waveform, shared)
    rest ← finish lanes out.1.1
    some (record { done = lane.done ++ out.0; left = []; waveform = out.1.0 } ∷ rest.0, rest.1)

  -- All calls, in the given order, which may stop early and may name pairs that have no call left.
  pub take_turns : List ℕ → List (Lane S F) → W → Option (List (Lane S F) × W)
  take_turns [] lanes shared = finish lanes shared
  take_turns (i ∷ order) lanes shared = do out ← pick i lanes shared; take_turns order out.0 out.1

-- A pair with an empty side has no call to make.
pub lane_of : {S F : Type 0} → List F → List S → Lane S F
lane_of fs [] = record { done = fs; left = []; waveform = [] }
lane_of fs (x ∷ w) = record { done = []; left = fs; waveform = x ∷ w }

pub lanes_of : {S F : Type 0} → List (List F) → List (List S) → List (Lane S F)
lanes_of [] ws = []
lanes_of (fs ∷ ps) [] = []
lanes_of (fs ∷ ps) (w ∷ ws) = lane_of fs w ∷ lanes_of ps ws

module _ {S F W : Type 0} ⦃ft : FilterTrait S F W⦄ ⦃pool : ThreadPool S F W⦄ where
  -- `ParallelFilters::process_chunk`: filters and waveforms are paired off up to the shorter list, and
  -- the threads run the pairs in an order that is the pool's. A call of a filter is one step, whose
  -- accesses to the faders no other call comes between.
  pub run_parallel :
      List (List F) → List (List S) × W → Option (List (List F) × (List (List S) × W))
  unfolding lanes_of lane_of
  run_parallel ps (ws, shared) = do
    let lanes = lanes_of ps ws
    out ← take_turns (pool.order lanes shared) lanes shared
    some (
      map (λ (lane : Lane S F). lane.done) out.0 ++ drop (length lanes) ps,
      (map (λ (lane : Lane S F). lane.waveform) out.0 ++ drop (length lanes) ws, out.1),
    )

-- `f.filters[channel].append(&mut filters)`; a channel out of bounds panics.
pub append_at {ℓ} : {A : Type ℓ} → List (List A) → ℕ → List A → Option (List (List A))
append_at [] channel fs = none
append_at (l ∷ ls) zero fs = some ((l ++ fs) ∷ ls)
append_at (l ∷ ls) (suc channel) fs = do rest ← append_at ls channel fs; some (l ∷ rest)

-- A new parallel step has a list of filters for each active channel.
pending : {F : Type 0} → Option (List (List F)) → ℕ → List (List F)
pending none active = replicate active []
pending (some p) active = p

module _ {S F P : Type 0} where
  -- A pending parallel step is appended to the new steps.
  flush : Option (List (List F)) → List (Step S F P) → List (Step S F P)
  flush none steps = steps
  flush (some p) steps = parallel_step p ∷ steps

  -- The loop of `parallelize_filters`, with the pending parallel step and the active channels.
  pub merge_from : List (Step S F P) → Option (List (List F)) → ℕ → Option (List (Step S F P))
  merge_from [] parfilt active = some (flush parfilt [])
  merge_from (mixer_step mix ∷ steps) parfilt active = do
    rest ← merge_from steps none mix.channels_out
    some (flush parfilt (mixer_step mix ∷ rest))
  merge_from (processor_step p ∷ steps) parfilt active = do
    rest ← merge_from steps none active
    some (flush parfilt (processor_step p ∷ rest))
  merge_from (parallel_step f ∷ steps) parfilt active = do
    rest ← merge_from steps none active
    some (flush parfilt (parallel_step f ∷ rest))
  merge_from (filter_step flt ∷ steps) parfilt active = do
    p ← append_at (pending parfilt active) flt.channel flt.filters
    merge_from steps (some p) active

  pub parallelize_filters : List (Step S F P) → ℕ → Option (List (Step S F P))
  parallelize_filters steps nbr_channels = merge_from steps none nbr_channels

-- What goes through the steps of a pipeline: the chunk, and the stash that mixers take vectors from.
abbrev pub Flow : Type 0 → Type 0
Flow S = AudioChunk S × Stash S

-- What the steps work on: the flow, and what the filters share.
abbrev pub Work : Type 0 → Type 0 → Type 0
Work S W = Flow S × W

module _ {S F P W : Type 0} ⦃a : Arith S⦄ ⦃ft : FilterTrait S F W⦄ ⦃pool : ThreadPool S F W⦄
    ⦃pt : ProcessorTrait S P⦄ where
  -- The body of the loop of `Pipeline::process_chunk`.
  pub run_step : Step S F P → Work S W → Option (Step S F P × Work S W)
  run_step (mixer_step mix) ((chunk, stash), shared) = do
    out ← Mix.process_chunk mix chunk stash
    some (mixer_step mix, (out, shared))
  run_step (filter_step flt) ((chunk, stash), shared) = do
    out ← run_group flt.channel flt.filters (chunk.waveforms, shared)
    some (
      filter_step (record flt { filters = out.0 }),
      ((record chunk { waveforms = out.1.0 }, stash), out.1.1),
    )
  run_step (parallel_step p) ((chunk, stash), shared) = do
    out ← run_parallel p (chunk.waveforms, shared)
    some (parallel_step out.0, ((record chunk { waveforms = out.1.0 }, stash), out.1.1))
  run_step (processor_step p) ((chunk, stash), shared) = do
    out ← pt.process_chunk p chunk
    some (processor_step out.1, ((out.0, stash), shared))

  pub run_steps : List (Step S F P) → Work S W → Option (List (Step S F P) × Work S W)
  run_steps [] work = some ([], work)
  run_steps (step ∷ steps) work = do
    first ← run_step step work
    rest ← run_steps steps first.1
    some (first.0 ∷ rest.0, rest.1)
