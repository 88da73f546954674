-- ===== src/Processing/Stream.antt =====
-- processing.rs: which messages the processing loop passes on.
use astra_camilla_dsp.Common.{◌≡◌, refl, sym, ap, ◌∙◌, subst, Bool, true, false, Option, none}
use astra_camilla_dsp.Common.{some, List, [], ◌∷◌, ◌>>=◌, >>=-eq-some, bind_assoc, some-eq}
use astra_camilla_dsp.Common.{bind_ext, IfSome, IfSome-intro}
use astra_camilla_dsp.Params.{Params}
use astra_camilla_dsp.Processing.{send, send_last, AudioMessage, audio, end_of_stream, pause}
use astra_camilla_dsp.Processing.{Event, Running, Turn, goes_on, ends, prepend, receive, rebuild}
use astra_camilla_dsp.Processing.{reconfigure, round, stopped, run}
use astra_camilla_dsp.Arith.{Arith}
use astra_camilla_dsp.Config.Diff.{ConfigChange}
use astra_camilla_dsp.Config.Pipeline.{Sections}
use astra_camilla_dsp.Filters.Volume.{Casts}
use astra_camilla_dsp.Pipeline.{ThreadPool, FilterTrait, ProcessorTrait}
use astra_camilla_dsp.Pipeline.Build.{Constructors}
use astra_camilla_dsp.Pipeline.Process.{process_chunk}
use astra_camilla_dsp.Pipeline.Start.{Devices}
use astra_camilla_dsp.Pipeline.Update.{Updates}
use astra_camilla_dsp.Processing.Messages.{is_end, sent_of, has_ended, changes_devices, answer}
use astra_camilla_dsp.Processing.Messages.{renew, Passes}

module _ {R S F P FC PC : Type 0} ⦃r : Arith R⦄ ⦃a : Arith S⦄ ⦃cast : Casts R S⦄
    ⦃ft : FilterTrait S F (Params R)⦄ ⦃pool : ThreadPool S F (Params R)⦄ ⦃pt : ProcessorTrait S P⦄
    (make : Constructors F P FC PC) (u : Updates F P FC PC) where
  -- What receiving leads to, by whether the message is taken and whether it is the last.
  abbrev taken : Bool → Bool → AudioMessage S → Running R S F P → Turn S (Running R S F P)
  taken true true msg s = ends (msg ∷ []) s
  taken true false msg s = goes_on (msg ∷ []) s
  taken false last msg s = ends [] s

  send-taken :
      (accepts : Bool) (msg : AudioMessage S) (s : Running R S F P)
      → send accepts msg s ≡ taken accepts false msg s
  send-taken true msg s = refl
  send-taken false msg s = refl

  send_last-taken :
      (accepts : Bool) (msg : AudioMessage S) (s : Running R S F P)
      → send_last accepts msg s ≡ taken accepts true msg s
  send_last-taken true msg s = refl
  send_last-taken false msg s = refl

  receive-answer :
      (received : Option (AudioMessage S)) (accepts : Bool) (secs : R) (s : Running R S F P)
      → receive make u received accepts secs s
        ≡ (answer make u received secs s >>= λ due. some (taken accepts (is_end due.0) due.0 due.1))
  unfolding receive
  receive-answer (some (audio c)) accepts secs s = simp bind_assoc (
      bind_ext (process_chunk s.pipeline s.params (c, s.stash) secs) _ _
        λ out e. ap some (send-taken accepts _ _))
  receive-answer (some end_of_stream) accepts secs s =
      ap some (send_last-taken accepts end_of_stream s)
  receive-answer (some pause) accepts secs s = ap some (send-taken accepts pause s)
  receive-answer none accepts secs s = ap some (send_last-taken accepts end_of_stream s)

  reconfigure-renew :
      (change : Option (ConfigChange × Devices R × Sections S FC PC)) (accepts_end : Bool)
      (s : Running R S F P)
      → changes_devices change ≡ false
      → reconfigure make u change accepts_end s
        ≡ (renew make u change s >>= λ s'. some (goes_on [] s'))
  unfolding reconfigure rebuild
  reconfigure-renew none b s h = refl
  reconfigure-renew (some (ConfigChange.pipeline, devices, sections)) b s h = simp bind_assoc refl
  reconfigure-renew (some (ConfigChange.mixer_parameters, devices, sections)) b s h =
      simp bind_assoc refl
  reconfigure-renew (some (ConfigChange.filter_parameters fs ms ps, devices, sections)) b s h =
      simp bind_assoc refl
  reconfigure-renew (some (ConfigChange.devices, devices, sections)) b s h = cc
  reconfigure-renew (some (ConfigChange.unchanged, devices, sections)) b s h = refl

  reconfigure-devices :
      (change : Option (ConfigChange × Devices R × Sections S FC PC)) (accepts_end : Bool)
      (s : Running R S F P) {turn : Turn S (Running R S F P)}
      → changes_devices change ≡ true
      → reconfigure make u change accepts_end s ≡ some turn
      → ends (end_of_stream ∷ []) s ≡ turn
  unfolding reconfigure
  reconfigure-devices none b s h e = cc
  reconfigure-devices (some (ConfigChange.pipeline, devices, sections)) b s h e = cc
  reconfigure-devices (some (ConfigChange.mixer_parameters, devices, sections)) b s h e = cc
  reconfigure-devices (some (ConfigChange.filter_parameters fs ms ps, devices, sections)) b s h e =
      cc
  reconfigure-devices (some (ConfigChange.devices, devices, sections)) true s h e = some-eq e
  reconfigure-devices (some (ConfigChange.devices, devices, sections)) false s h e = cc
  reconfigure-devices (some (ConfigChange.unchanged, devices, sections)) b s h e = cc

  -- What a round does with a message that is due.
  abbrev after_due :
      Event R S FC PC
      → Bool
      → Bool
      → AudioMessage S × Running R S F P
      → Option (Turn S (Running R S F P))
  after_due e true true due = some (ends (due.0 ∷ []) due.1)
  after_due e true false due =
      reconfigure make u e.change e.accepts_end due.1 >>= λ turn. some (prepend (due.0 ∷ []) turn)
  after_due e false last due = some (ends [] due.1)

  continued :
      (e : Event R S FC PC) (accepts last : Bool) (due : AudioMessage S × Running R S F P)
      → (elim (taken accepts last due.0 due.1) [
        | ends sent t ↦ some (ends sent t)
        | goes_on sent t ↦ do
          after ← reconfigure make u e.change e.accepts_end t
          some (prepend sent after)
      ])
        ≡ after_due e accepts last due
  continued e true true due = refl
  continued e true false due = refl
  continued e false last due = refl

  round-due :
      (e : Event R S FC PC) (s : Running R S F P)
      → round make u e s ≡ (
          answer make u e.received e.secs_elapsed (record s { params = e.control s.params })
          >>= λ due. after_due e e.accepts (is_end due.0) due)
  unfolding round
  round-due e s =
      let s' = record s { params = e.control s.params } in
      rw (receive-answer e.received e.accepts e.secs_elapsed s') (
        simp bind_assoc (
          bind_ext (answer make u e.received e.secs_elapsed s') _ _
            λ due k. continued e e.accepts (is_end due.0) due))

  -- The loop behind a round.
  abbrev next_rounds :
      List (Event R S FC PC) → Turn S (Running R S F P) → Option (Turn S (Running R S F P))
  next_rounds es (ends sent t) = some (ends sent (stopped make u t))
  next_rounds es (goes_on sent t) = do rest ← run make u es t; some (prepend sent rest)

  abbrev PassesTurn : List (Event R S FC PC) → Running R S F P → Turn S (Running R S F P) → Type 0
  PassesTurn es s turn = Passes make u es s (sent_of turn) (has_ended turn)

  passes_prepend :
      (e : Event R S FC PC) (es : List (Event R S FC PC)) (s s' : Running R S F P)
      (due : AudioMessage S × Running R S F P) (rest : Turn S (Running R S F P))
      → answer make u e.received e.secs_elapsed (record s { params = e.control s.params })
        ≡ some due
      → e.accepts ≡ true
      → is_end due.0 ≡ false
      → changes_devices e.change ≡ false
      → renew make u e.change due.1 ≡ some s'
      → PassesTurn es s' rest
      → PassesTurn (e ∷ es) s (prepend (due.0 ∷ []) rest)
  passes_prepend e es s s' due (goes_on more t) k acc last dev new h =
      (acc, (due, k, (refl, rw (last, dev) (s', new, h))))
  passes_prepend e es s s' due (ends more t) k acc last dev new h =
      (acc, (due, k, (refl, rw (last, dev) (s', new, h))))

  after_due-Passes :
      (e : Event R S FC PC) (es : List (Event R S FC PC)) (s : Running R S F P)
      (due : AudioMessage S × Running R S F P) (accepts last devices : Bool)
      {out : Turn S (Running R S F P)}
      → answer make u e.received e.secs_elapsed (record s { params = e.control s.params })
        ≡ some due
      → e.accepts ≡ accepts
      → is_end due.0 ≡ last
      → changes_devices e.change ≡ devices
      → (after_due e accepts last due >>= next_rounds es) ≡ some out
      → ((t : Running R S F P) (rest : Turn S (Running R S F P))
          → run make u es t ≡ some rest
          → PassesTurn es t rest)
      → PassesTurn (e ∷ es) s out
  after_due-Passes e es s due false last devices k acc fin dev h later =
      subst (PassesTurn (e ∷ es) s) (some-eq h) (acc, refl)
  after_due-Passes e es s due true true devices k acc fin dev h later =
      subst (PassesTurn (e ∷ es) s) (some-eq h) (acc, (due, k, (refl, rw fin (refl, refl))))
  after_due-Passes e es s due true false true k acc fin dev h later =
      let (turn, h₁, h₂) = >>=-eq-some (after_due e true false due) (next_rounds es) h in
      let (got, h₃, h₄) = >>=-eq-some (reconfigure make u e.change e.accepts_end due.1) _ h₁ in
      let is = reconfigure-devices e.change e.accepts_end due.1 dev h₃ in
      let turn_is : ends (due.0 ∷ end_of_stream ∷ []) due.1 ≡ turn =
        ap (prepend (due.0 ∷ [])) is ∙ some-eq h₄ in
      let out_is = ap (next_rounds es) turn_is ∙ h₂ in
      subst (PassesTurn (e ∷ es) s) (some-eq out_is)
        (acc, (due, k, (refl, rw (fin, dev) (refl, refl))))
  after_due-Passes e es s due true false false k acc fin dev h later =
      let (turn, h₁, h₂) = >>=-eq-some (after_due e true false due) (next_rounds es) h in
      let (got, h₃, h₄) =
        >>=-eq-some (renew make u e.change due.1 >>= λ s'. some (goes_on [] s')) _
          (rw (reconfigure-renew e.change e.accepts_end due.1 dev) at h₁) in
      let (s', new, h₅) = >>=-eq-some (renew make u e.change due.1) _ h₃ in
      let turn_is : goes_on (due.0 ∷ []) s' ≡ turn =
        ap (prepend (due.0 ∷ [])) (some-eq h₅) ∙ some-eq h₄ in
      let (rest, h₆, h₇) = >>=-eq-some (run make u es s') _ (ap (next_rounds es) turn_is ∙ h₂) in
      subst (PassesTurn (e ∷ es) s) (some-eq h₇)
        (passes_prepend e es s s' due rest k acc fin dev new (later s' rest h₆))

  next_rounds_lem :
      (es : List (Event R S FC PC)) (turn : Turn S (Running R S F P))
      → next_rounds es turn ≡ (elim turn [
        | ends sent t ↦ some (ends sent (stopped make u t))
        | goes_on sent t ↦ do rest ← run make u es t; some (prepend sent rest)
      ])
  next_rounds_lem es (ends sent t) = refl
  next_rounds_lem es (goes_on sent t) = refl

  run-Passes :
      (events : List (Event R S FC PC)) (s : Running R S F P) {turn : Turn S (Running R S F P)}
      → run make u events s ≡ some turn
      → PassesTurn events s turn
  unfolding run
  run-Passes [] s h = subst (PassesTurn [] s) (some-eq h) (refl, refl)
  run-Passes (e ∷ es) s h =
      let (first, got, h') = >>=-eq-some (round make u e s) _ h in
      let (due, k, after) =
        >>=-eq-some
          (answer make u e.received e.secs_elapsed (record s { params = e.control s.params })) _
          (sym (round-due e s) ∙ got) in
      after_due-Passes e es s due e.accepts (is_end due.0) (changes_devices e.change) k refl refl
        refl (ap (λ o. o >>= next_rounds es) after ∙ next_rounds_lem es first ∙ h')
        (λ t rest is. run-Passes es t is)

  -- Where the rounds do not panic, one message is passed on for each round, in the order in which they
  -- came, until one is refused or the stream ends: for a chunk the chunk that the pipeline makes of it,
  -- with the pipeline, the parameters and the stash that the rounds before have left, and the pipeline
  -- renewed as the changes of configuration say. The end of the stream is passed on where it is
  -- received, where the channel fails, and behind the message of a round that finds changed devices; the
  -- loop ends there, and has not ended before unless a message was refused.
  pub run-Delivers :
      (events : List (Event R S FC PC)) (s : Running R S F P)
      → IfSome
          (λ turn. Passes make u events s (sent_of turn) (has_ended turn))
          (run make u events s)
  run-Delivers events s =
      IfSome-intro (PassesTurn events s) (run make u events s) (λ turn h. run-Passes events s h)
