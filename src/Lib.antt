-- ===== src/Lib.antt =====
-- AstraCamillaDsp: the signal path of a tool that processes audio chunk by chunk.
--
-- A configuration names mixers, filters and processors, and lists the steps of a pipeline. It is
-- validated (src/config/utils.rs) and then built into a pipeline (src/pipeline.rs), which takes each
-- chunk of audio (src/audiochunk.rs) through its steps. A mixer (src/mixer.rs) makes a chunk with other
-- channels, with memory taken from a stash (src/utils/stash.rs); a filter (src/filters/) works on the
-- waveform of one channel; a processor (src/processors/) works on the whole chunk. With several threads
-- the filter steps of the pipeline are merged into steps whose channels are run in parallel. A volume
-- control in front of the pipeline follows faders that are shared with the control side (src/lib.rs).
-- The processing thread (src/processing.rs) takes messages from the capture device, runs the pipeline
-- on their chunks, sends them on to the playback device, and rebuilds or updates the pipeline when a
-- new configuration comes, by what `config_diff` says that it changes.
--
-- How the files correspond to the code:
--   Arith: the float type `PrcFmt` (src/lib.rs) as a type with operations. Rounding is not modelled:
--     what is proved holds for any operations, so for the floats; where a law is needed, it is a
--     hypothesis. Arith/Whole has whole numbers, at which the definitions run in the tests.
--   Stash, Stash/Clean: src/utils/stash.rs. The global stacks are a value that is passed along.
--   Decibels: src/utils/decibels.rs. AudioChunk, AudioChunk/Stats: src/audiochunk.rs.
--   Config/Mixer, Config/Pipeline, Config/Validate: the parts of src/config/mod.rs that the modelled
--     code reads, and the pipeline's part of `validate_config` and `used_capture_channels` in
--     src/config/utils.rs. A hash map is a list of names and values.
--   Config/Diff: `config_diff` of src/config/utils.rs; the derived comparisons of floats, devices and
--     steps are a parameter. Config/Diff/Changed and Config/Diff/Unchanged have what its lists mean.
--   Config/Formats, Config/FormatTrips: the sample formats of src/config/mod.rs.
--   Mixer: src/mixer.rs, with Mixer/Build (building and safety), Mixer/Mix and Mixer/Sum (what a chunk becomes),
--     Mixer/Muted (updates and muting), Mixer/Marks and Mixer/Used (unused channels), Mixer/Duplicates (validation).
--   Pipeline: src/pipeline.rs, the steps, their processing and `parallelize_filters`; Pipeline/Build has
--     the building. Pipeline/Merge, Pipeline/Alone, Pipeline/Lanes, Pipeline/Widths and
--     Pipeline/Equivalence compare a merged pipeline with the given one; the order in which threads call
--     the filters is that of a parameter, the pool of the crate rayon, and a call is one step; Pipeline/Ranges, Pipeline/Safe and Pipeline/Validated link it to the validation;
--     Pipeline/Process has the processing of a chunk with the volume control and the load.
--     Pipeline/Start has the whole of `Pipeline::from_config`, Pipeline/Update `update_parameters`,
--     Pipeline/Update/Total what a change of configuration does to it, and Pipeline/Running the widths
--     of pipelines that are merged, built or updated.
--   Processing: the loop of src/processing.rs. A round is an event, with what is received, whether the
--     other end takes messages, and the change of configuration that waits; a schedule is a list of
--     events. Processing/Messages and Processing/Stream are about the messages, Processing/Width about the chunks.
--   Processors/NoiseGate, Processors/Compressor, Processors/Race: src/processors/noisegate.rs,
--     src/processors/compressor.rs and src/processors/race.rs, processors of the interface
--     `ProcessorTrait`. Processors/Dispatch has their updates by any configuration, which panic for that
--     of another processor; Processors/Retyped a change of a processor's type.
--   Playback/RingBuffer, Playback/RateController: src/utils/ringbuffer.rs and
--     src/utils/rate_controller.rs.
--   Wav: src/utils/wavtools.rs on the bytes of a file: Wav/Find reads headers, Wav/Write writes them;
--     Wav/Terminates, Wav/Within (on Wav/Chunks) and Wav/RoundTrip (on Wav/Headers) are about them.
--   Files: the readers of src/file_backend/filereader.rs and filereader_nonblock.rs, on a source of bytes
--     that is a parameter (Files/Stream has what is documented of it); Files/Blocking and Files/Polling
--     have what they return. Files/Limit: the limit on captured bytes in src/file_backend/device.rs,
--     and the bytes of a round of `capture_loop`, over any reader of its interface; Files/Left and
--     Files/Capture have what rounds leave, and Files/Readers shows that both readers fit.
--   Params: `ProcessingParameters` of src/lib.rs.
--   Filters/Gain, Filters/Delay, Filters/Volume: src/filters/basicfilters.rs; Filters/Biquad:
--     src/filters/biquad.rs; Filters/Limiter: src/filters/limiter.rs; Filters/DiffEq:
--     src/filters/diffeq.rs. They fill the interface `FilterTrait` that the pipeline is generic in, a
--     filter's work on a waveform and on the faders that filters share; of these only Volume uses the
--     faders. Filters/Dispatch has their updates by any configuration.
--   Counters/Silence, Counters/History: src/utils/countertimer.rs, the counters that pause the
--     processing of silence and the history of signal levels. The clock is an argument.
--   Common: lists, options and tests that the others share.
--
-- A step that may panic gives an `Option`, of which `none` is the panic; a rejected configuration is a
-- `Check` with the error; the wav functions, which do both, give an `Outcome`. State is passed
-- explicitly. The loops of the modelled code are over lists or ranges and are structural recursions, but
-- for two. The search through the chunks of a wav file has as fuel an eighth of the file's length, since
-- each round passes the eight bytes of a chunk's header. The readers of a file have more fuel than the
-- buffer's bytes and the source's interruptions, since each round takes a byte, is interrupted or ends.
--
-- Not modelled: the audio backends but for the reading of files, the websocket server, the command line and the logging, which are
-- input and output; names that only appear in logs; the clock; the convolution,
-- dither and loudness filters, the resamplers and the night mode processor, which the pipeline knows by
-- their interface; the spectrum that the processing loop shows. The ring buffer of the crate ringbuf is a
-- parameter, of which Filters/Delay/Fifo states what the delay relies on, and Playback/RingBuffer what
-- the filling of an output buffer does.
pub mod Common
pub mod Arith
pub mod Stash
pub mod Decibels
pub mod AudioChunk
pub mod Config
pub mod Mixer
pub mod Pipeline
pub mod Params
pub mod Files
pub mod Filters
pub mod Counters
pub mod Processors
pub mod Wav
pub mod Processing
pub mod Playback
