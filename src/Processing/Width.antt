-- ===== src/Processing/Width.antt =====
-- processing.rs: how wide the chunks are that the processing loop sends, over changes of
-- configuration.
use astra_camilla_dsp.Common.{ℕ, ◌≡◌, ◌∙◌, subst, Bool, true, false, Option, none, some, List, []}
use astra_camilla_dsp.Common.{◌∷◌, length, All, All-append, ◌>>=◌, >>=-eq-some, some-eq, IfSome}
use astra_camilla_dsp.Common.{IfSome-intro}
use astra_camilla_dsp.Processing.Messages.{sent_of}
use astra_camilla_dsp.Params.{Params}
use astra_camilla_dsp.Arith.{Arith}
use astra_camilla_dsp.Config.Diff.{ConfigChange}
use astra_camilla_dsp.Config.Pipeline.{Sections, FilterConfig, ProcessorConfig}
use astra_camilla_dsp.Filters.Volume.{Casts}
use astra_camilla_dsp.Pipeline.{ThreadPool, FilterTrait, ProcessorTrait}
use astra_camilla_dsp.Pipeline.Build.{Constructors}
use astra_camilla_dsp.Pipeline.Merge.{KeepsLength}
use astra_camilla_dsp.Pipeline.Process.{process_chunk, process_chunk-Continues, Continues}
use astra_camilla_dsp.Pipeline.Running.{Leads, IsAccepted, update_parameters-Leads}
use astra_camilla_dsp.Pipeline.Running.{new_pipeline-Leads}
use astra_camilla_dsp.Pipeline.Safe.{Builds}
use astra_camilla_dsp.Pipeline.Start.{Devices, new_pipeline}
use astra_camilla_dsp.Pipeline.Update.{Updates, update_parameters}
use astra_camilla_dsp.Pipeline.Widths.{KeepsChannels}
use astra_camilla_dsp.Processing.{AudioMessage, audio, end_of_stream, pause, Event, Running, Turn}
use astra_camilla_dsp.Processing.{goes_on, ends, send, send_last, prepend, receive, rebuild}
use astra_camilla_dsp.Processing.{reconfigure, round, stopped, run}
use astra_camilla_dsp.Stash.Clean.{IsClean}

-- A chunk has `n` waveforms.
abbrev pub IsWide : {S : Type 0} → ℕ → AudioMessage S → Type 0
IsWide n (audio c) = length c.waveforms ≡ n
IsWide n end_of_stream = Unit
IsWide n pause = Unit

abbrev pub IsReceived : {S : Type 0} → ℕ → Option (AudioMessage S) → Type 0
IsReceived n none = Unit
IsReceived n (some msg) = IsWide n msg

module _ {R S FC PC : Type 0} (E : Type 0) ⦃fc : FilterConfig FC E⦄ ⦃pc : ProcessorConfig PC E⦄
    (fs n m : ℕ) where
  -- A pipeline is rebuilt for a configuration that is accepted, and updated for changed parameters
  -- that are not those of mixers.
  abbrev pub IsChange : Option (ConfigChange × Devices R × Sections S FC PC) → Type 0
  IsChange none = Unit
  IsChange (some (ConfigChange.pipeline, devices, conf)) = IsAccepted E fs n m devices conf
  IsChange (some (ConfigChange.mixer_parameters, devices, conf)) = IsAccepted E fs n m devices conf
  IsChange (some (ConfigChange.filter_parameters filters mixers ps, devices, conf)) = mixers ≡ []
  IsChange (some (ConfigChange.devices, devices, conf)) = Unit
  IsChange (some (ConfigChange.unchanged, devices, conf)) = Unit

  abbrev pub IsEvent : Event R S FC PC → Type 0
  IsEvent e = IsReceived n e.received × IsChange e.change

module _ {R S F P : Type 0} ⦃a : Arith S⦄ where
  -- The pipeline leads from `n` channels to `m`, and the stash is clean.
  abbrev pub IsRunning : ℕ → ℕ → Running R S F P → Type 0
  IsRunning n m s = Leads n m s.pipeline.steps × IsClean s.stash

  abbrev pub state_of : Turn S (Running R S F P) → Running R S F P
  state_of (goes_on sent s) = s
  state_of (ends sent s) = s

  -- Chunks with `m` waveforms are sent, and the loop can go on.
  abbrev pub Keeps : ℕ → ℕ → Turn S (Running R S F P) → Type 0
  Keeps n m turn = All (IsWide m) (sent_of turn) × IsRunning n m (state_of turn)

  send-Keeps :
      (n m : ℕ) (accepts : Bool) (msg : AudioMessage S) (s : Running R S F P)
      → IsWide m msg
      → IsRunning n m s
      → Keeps n m (send accepts msg s)
  send-Keeps n m true msg s w i = ((w, tt), i)
  send-Keeps n m false msg s w i = (tt, i)

  send_last-Keeps :
      (n m : ℕ) (accepts : Bool) (s : Running R S F P)
      → IsRunning n m s
      → Keeps n m (send_last accepts end_of_stream s)
  send_last-Keeps n m true s i = ((tt, tt), i)
  send_last-Keeps n m false s i = (tt, i)

  prepend-Keeps :
      (n m : ℕ) (sent : List (AudioMessage S)) (turn : Turn S (Running R S F P))
      → All (IsWide m) sent
      → Keeps n m turn
      → Keeps n m (prepend sent turn)
  prepend-Keeps n m sent (goes_on more t) w k = (All-append (IsWide m) sent more w k.0, k.1)
  prepend-Keeps n m sent (ends more t) w k = (All-append (IsWide m) sent more w k.0, k.1)

module _ {R S F P FC PC E : Type 0} ⦃r : Arith R⦄ ⦃a : Arith S⦄ ⦃cast : Casts R S⦄
    ⦃ft : FilterTrait S F (Params R)⦄ ⦃pool : ThreadPool S F (Params R)⦄ ⦃pt : ProcessorTrait S P⦄
    ⦃fc : FilterConfig FC E⦄ ⦃pc : ProcessorConfig PC E⦄ {make : Constructors F P FC PC} {fs : ℕ}
    (b : Builds make fc pc fs) (kf : KeepsLength ft) (kp : KeepsChannels pt) (u : Updates F P FC PC)
    (n m : ℕ) where
  receive-Keeps :
      (received : Option (AudioMessage S)) (accepts : Bool) (secs : R) (s : Running R S F P)
      {turn : Turn S (Running R S F P)}
      → IsReceived n received
      → IsRunning n m s
      → receive make u received accepts secs s ≡ some turn
      → Keeps n m turn
  unfolding receive
  receive-Keeps none accepts secs s w i e =
      subst (Keeps n m) (some-eq e) (send_last-Keeps n m accepts s i)
  receive-Keeps (some end_of_stream) accepts secs s w i e =
      subst (Keeps n m) (some-eq e) (send_last-Keeps n m accepts s i)
  receive-Keeps (some pause) accepts secs s w i e =
      subst (Keeps n m) (some-eq e) (send-Keeps n m accepts pause s tt i)
  receive-Keeps (some (audio c)) accepts secs s w i e =
      let (out, k, e') = >>=-eq-some (process_chunk s.pipeline s.params (c, s.stash) secs) _ e in
      let found =
        process_chunk-Continues kf kp s.pipeline s.params n (c, s.stash) secs i.0.0 (w, i.1) in
      let (fit, wide, left, _) : Continues n s.pipeline secs out =
        subst (IfSome (Continues n s.pipeline secs)) k found in
      subst (Keeps n m) (some-eq e')
        (send-Keeps n m accepts (audio (out.2).0) _ (left.0 ∙ i.0.1) ((fit, wide ∙ i.0.1), left.1))

  rebuild-Keeps :
      (devices : Devices R) (conf : Sections S FC PC) (s : Running R S F P)
      {turn : Turn S (Running R S F P)}
      → IsAccepted E fs n m devices conf
      → IsRunning n m s
      → rebuild make u devices conf s ≡ some turn
      → Keeps n m turn
  unfolding rebuild
  rebuild-Keeps devices conf s v i e =
      let (p, k, e') = >>=-eq-some (new_pipeline make devices conf s.params) _ e in
      subst (Keeps n m) (some-eq e') (tt, (new_pipeline-Leads b devices conf s.params n m v k, i.1))

  reconfigure-Keeps :
      (change : Option (ConfigChange × Devices R × Sections S FC PC)) (accepts_end : Bool)
      (s : Running R S F P) {turn : Turn S (Running R S F P)}
      → IsChange E fs n m change
      → IsRunning n m s
      → reconfigure make u change accepts_end s ≡ some turn
      → Keeps n m turn
  unfolding reconfigure
  reconfigure-Keeps none x s v i e = subst (Keeps n m) (some-eq e) (tt, i)
  reconfigure-Keeps (some (ConfigChange.pipeline, devices, conf)) x s v i e =
      rebuild-Keeps devices conf s v i e
  reconfigure-Keeps (some (ConfigChange.mixer_parameters, devices, conf)) x s v i e =
      rebuild-Keeps devices conf s v i e
  reconfigure-Keeps (some (ConfigChange.filter_parameters filters mixers ps, devices, conf)) x s v i
        e =
      let (p, k, e') = >>=-eq-some (update_parameters u s.pipeline conf filters mixers ps) _ e in
      let k' = rw v at k in
      subst (Keeps n m) (some-eq e')
        (tt, (update_parameters-Leads u conf filters ps s.pipeline n m k' i.0, i.1))
  reconfigure-Keeps (some (ConfigChange.devices, devices, conf)) true s v i e =
      subst (Keeps n m) (some-eq e) ((tt, tt), i)
  reconfigure-Keeps (some (ConfigChange.devices, devices, conf)) false s v i e = cc
  reconfigure-Keeps (some (ConfigChange.unchanged, devices, conf)) x s v i e =
      subst (Keeps n m) (some-eq e) (tt, i)

  round-Keeps :
      (e : Event R S FC PC) (s : Running R S F P) {turn : Turn S (Running R S F P)}
      → IsEvent E fs n m e
      → IsRunning n m s
      → round make u e s ≡ some turn
      → Keeps n m turn
  unfolding round
  round-Keeps e s v i h =
      let s' = record s { params = e.control s.params } in
      let (first, got, h') =
        >>=-eq-some (receive make u e.received e.accepts e.secs_elapsed s') _ h in
      go first (receive-Keeps e.received e.accepts e.secs_elapsed s' v.0 i got) h'
    where
      go :
          (first : Turn S (Running R S F P)) {turn : Turn S (Running R S F P)}
          → Keeps n m first
          → (elim first [
            | ends sent t ↦ some (ends sent t)
            | goes_on sent t ↦ do
              after ← reconfigure make u e.change e.accepts_end t
              some (prepend sent after)
          ])
            ≡ some turn
          → Keeps n m turn
      go (ends sent t) k h = subst (Keeps n m) (some-eq h) k
      go (goes_on sent t) k h =
          let (after, is, h') = >>=-eq-some (reconfigure make u e.change e.accepts_end t) _ h in
          subst (Keeps n m) (some-eq h') (
            prepend-Keeps n m sent after k.0
              (reconfigure-Keeps e.change e.accepts_end t v.1 k.1 is))

  run-Keeps-some :
      (events : List (Event R S FC PC)) (s : Running R S F P) {turn : Turn S (Running R S F P)}
      → All (IsEvent E fs n m) events
      → IsRunning n m s
      → run make u events s ≡ some turn
      → Keeps n m turn
  unfolding run
  run-Keeps-some [] s v i h = subst (Keeps n m) (some-eq h) (tt, i)
  run-Keeps-some (e ∷ es) s {turn = out} v i h =
      let (first, got, h') = >>=-eq-some (round make u e s) _ h in
      go first (round-Keeps e s v.0 i got) h' λ t rest j is. run-Keeps-some es t v.1 j is
    where
      go :
          (first : Turn S (Running R S F P))
          → Keeps n m first
          → (elim first [
            | ends sent t ↦ some (ends sent (stopped make u t))
            | goes_on sent t ↦ do rest ← run make u es t; some (prepend sent rest)
          ])
            ≡ some out
          → ((t : Running R S F P) (rest : Turn S (Running R S F P))
              → IsRunning n m t
              → run make u es t ≡ some rest
              → Keeps n m rest)
          → Keeps n m out
      go (ends sent t) k h later = subst (Keeps n m) (some-eq h) k
      go (goes_on sent t) k h later =
          let (rest, is, h') = >>=-eq-some (run make u es t) _ h in
          subst (Keeps n m) (some-eq h') (prepend-Keeps n m sent rest k.0 (later t rest k.1 is))

  -- Where the loop starts with a pipeline that leads from the `n` channels of the capture device to the
  -- `m` of the playback device, every chunk that it sends has `m` waveforms, and so it stays over all
  -- changes of configuration: the state behind any series of rounds that does not panic is such a
  -- state again. Received chunks have `n` waveforms; a pipeline is rebuilt for configurations that
  -- pass validation for these channels and whose filter steps name filters; changed parameters are not
  -- those of mixers. Filters and processors are assumed to be built from configurations that were
  -- accepted, filters to keep the length of a waveform, and processors the number of waveforms.
  pub run-Keeps :
      (events : List (Event R S FC PC)) (s : Running R S F P)
      → All (IsEvent E fs n m) events
      → IsRunning n m s
      → IfSome (Keeps n m) (run make u events s)
  run-Keeps events s v i =
      IfSome-intro (Keeps n m) (run make u events s) (λ turn h. run-Keeps-some events s v i h)
