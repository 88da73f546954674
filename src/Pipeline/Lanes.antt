-- ===== src/Pipeline/Lanes.antt =====
-- pipeline.rs, `ParallelFilters`: where filters use their own state only, the order of the threads does
-- not matter.
use astra_camilla_dsp.Common.{ℕ, zero, suc, ◌<◌, ◌≡◌, refl, sym, ap, ◌∙◌, Option, some, List, []}
use astra_camilla_dsp.Common.{◌∷◌, ◌++◌, map, append-nil, append_assoc, length, get_elem?, drop}
use astra_camilla_dsp.Common.{replicate, ◌>>=◌, bind_assoc, bind_swap, bind_ext}
use astra_camilla_dsp.Pipeline.{FilterTrait, ThreadPool, Lane, local, local_filter, run_filters}
use astra_camilla_dsp.Pipeline.{run_channel, run_group, run_parallel, pick, call_first, finish}
use astra_camilla_dsp.Pipeline.{take_turns, lanes_of, lane_of}
use astra_camilla_dsp.Pipeline.Merge.{KeepsLength, appended}
use astra_camilla_dsp.Pipeline.Alone.{own_filters, own_channel, own_group, own_parallel}
use astra_camilla_dsp.Pipeline.Alone.{OwnLength, own_parallel-replicate, own_parallel-appended}

-- Filters that neither read nor write what is shared: all of the code's but the volume and the loudness
-- filters.
pub record IsLocal {S F W : Type 0} (ft : FilterTrait S F W) : Type 0 where
  pub own : F → List S → Option (List S × F)
  pub is_local : (f : F) (x : List S × W) → ft.process_waveform f x ≡ local own f x

module _ {S F W : Type 0} ⦃ft : FilterTrait S F W⦄ (l : IsLocal ft) where
  run_filters-own :
      (fs : List F) (w : List S) (shared : W)
      → run_filters fs (w, shared) ≡ (own_filters l.own fs w >>= λ r. some (r.0, (r.1, shared)))
  unfolding run_filters own_filters
  run_filters-own [] w shared = refl
  run_filters-own (f ∷ fs) w shared = rw (l.is_local f (w, shared)) (
      simp bind_assoc
        (bind_ext (l.own f w) _ _ λ out e. rw (run_filters-own fs out.0 shared) (simp bind_assoc)))

  run_channel-own :
      (fs : List F) (w : List S) (shared : W)
      → run_channel fs (w, shared) ≡ (own_channel l.own fs w >>= λ r. some (r.0, (r.1, shared)))
  unfolding run_channel own_channel
  run_channel-own fs [] shared = refl
  run_channel-own fs (x ∷ w) shared = run_filters-own fs (x ∷ w) shared

  run_group-own :
      (c : ℕ) (fs : List F) (ws : List (List S)) (shared : W)
      → run_group c fs (ws, shared) ≡ (own_group l.own c fs ws >>= λ r. some (r.0, (r.1, shared)))
  unfolding run_group own_group
  run_group-own c fs ws shared =
      simp bind_assoc
        (bind_ext (get_elem? ws c) _ _ λ w e. rw (run_channel-own fs w shared) (simp bind_assoc))

  -- The calls that a pair has left, made on their own.
  own_rest : List F → Lane S F → Option (Lane S F)
  own_rest left lane = do
    out ← own_filters l.own left lane.waveform
    some (record { done = lane.done ++ out.0; left = []; waveform = out.1 })

  own_call : List F → Lane S F → Option (Lane S F)
  own_call [] lane = some lane
  own_call (f ∷ fs) lane = do
    out ← l.own f lane.waveform
    some (record { done = lane.done ++ (out.1 ∷ []); left = fs; waveform = out.0 })

  own_lanes : List (Lane S F) → Option (List (Lane S F))
  own_lanes [] = some []
  own_lanes (lane ∷ lanes) = do
    first ← own_rest lane.left lane
    rest ← own_lanes lanes
    some (first ∷ rest)

  own_pick : ℕ → List (Lane S F) → Option (List (Lane S F))
  own_pick i [] = some []
  own_pick zero (lane ∷ lanes) = do first ← own_call lane.left lane; some (first ∷ lanes)
  own_pick (suc i) (lane ∷ lanes) = do rest ← own_pick i lanes; some (lane ∷ rest)

  finish-own :
      (lanes : List (Lane S F)) (shared : W)
      → finish lanes shared ≡ (own_lanes lanes >>= λ r. some (r, shared))
  unfolding finish own_lanes own_rest
  finish-own [] shared = refl
  finish-own (lane ∷ lanes) shared = rw (run_filters-own lane.left lane.waveform shared) (
      simp bind_assoc (
        bind_ext (own_filters l.own lane.left lane.waveform) _ _
          λ out e. rw (finish-own lanes shared) (simp bind_assoc)))

  call_first-own :
      (left : List F) (lane : Lane S F) (shared : W)
      → call_first left lane shared ≡ (own_call left lane >>= λ r. some (r, shared))
  unfolding call_first own_call
  call_first-own [] lane shared = refl
  call_first-own (f ∷ fs) lane shared = rw (l.is_local f (lane.waveform, shared)) (simp bind_assoc)

  pick-own :
      (i : ℕ) (lanes : List (Lane S F)) (shared : W)
      → pick i lanes shared ≡ (own_pick i lanes >>= λ r. some (r, shared))
  unfolding pick own_pick
  pick-own i [] shared = refl
  pick-own zero (lane ∷ lanes) shared = rw (call_first-own lane.left lane shared) (simp bind_assoc)
  pick-own (suc i) (lane ∷ lanes) shared = rw (pick-own i lanes shared) (simp bind_assoc)

  -- A call that is made early makes no difference to a pair.
  own_call-rest :
      (left : List F) (lane : Lane S F)
      → lane.left ≡ left
      → (own_call left lane >>= λ r. own_rest r.left r) ≡ own_rest left lane
  unfolding own_call own_rest own_filters
  own_call-rest [] lane e = rw e refl
  own_call-rest (f ∷ fs) lane e = simp bind_assoc (
      bind_ext (l.own f lane.waveform) _ _ λ out k.
        bind_ext (own_filters l.own fs out.0) _ _ λ rest k'.
          ap (λ done. some (record { done = done; left = []; waveform = rest.1 }))
            (append_assoc lane.done (out.1 ∷ []) rest.0))

  own_pick-lanes :
      (i : ℕ) (lanes : List (Lane S F)) → (own_pick i lanes >>= own_lanes) ≡ own_lanes lanes
  unfolding own_pick own_lanes
  own_pick-lanes i [] = refl
  own_pick-lanes zero (lane ∷ lanes) =
      rw (sym (own_call-rest lane.left lane refl)) (simp bind_assoc)
  own_pick-lanes (suc i) (lane ∷ lanes) = simp bind_assoc (
      bind_swap (own_pick i lanes) (own_rest lane.left lane) _
      ∙ bind_ext (own_rest lane.left lane) _ _
          λ first e. rw (sym (own_pick-lanes i lanes)) (simp bind_assoc))

  -- In whatever order the calls are made, the pairs end as they would on their own.
  take_turns-own :
      (order : List ℕ) (lanes : List (Lane S F)) (shared : W)
      → take_turns order lanes shared ≡ (own_lanes lanes >>= λ r. some (r, shared))
  unfolding take_turns
  take_turns-own [] lanes shared = finish-own lanes shared
  take_turns-own (i ∷ order) lanes shared = rw (pick-own i lanes shared) (
      simp bind_assoc (
        bind_ext (own_pick i lanes) _ _ (λ r e. take_turns-own order r shared)
        ∙ sym (bind_assoc (own_pick i lanes) own_lanes _)
        ∙ ap (λ o. o >>= λ r. some (r, shared)) (own_pick-lanes i lanes)))

  -- What pairs become is what their channels become.
  own_lanes-parallel :
      (ps : List (List F)) (ws : List (List S))
      → (own_lanes (lanes_of ps ws) >>= λ lanes. some (
        map (λ (lane : Lane S F). lane.done) lanes ++ drop (length (lanes_of ps ws)) ps,
        map (λ (lane : Lane S F). lane.waveform) lanes ++ drop (length (lanes_of ps ws)) ws,
      ))
        ≡ own_parallel l.own ps ws
  unfolding own_lanes own_rest own_parallel own_channel own_filters lanes_of lane_of
  own_lanes-parallel [] ws = refl
  own_lanes-parallel (fs ∷ ps) [] = refl
  own_lanes-parallel (fs ∷ ps) ([] ∷ ws) =
      rw (sym (own_lanes-parallel ps ws)) (simp (bind_assoc, append-nil))
  own_lanes-parallel (fs ∷ ps) ((x ∷ w) ∷ ws) = simp bind_assoc (
      bind_ext (own_filters l.own fs (x ∷ w)) _ _
        λ out e. rw (sym (own_lanes-parallel ps ws)) (simp bind_assoc))

module _ {S F W : Type 0} ⦃ft : FilterTrait S F W⦄ ⦃pool : ThreadPool S F W⦄ (l : IsLocal ft) where
  run_parallel-own :
      (ps : List (List F)) (ws : List (List S)) (shared : W)
      → run_parallel ps (ws, shared) ≡ (own_parallel l.own ps ws >>= λ r. some (r.0, (r.1, shared)))
  unfolding run_parallel
  run_parallel-own ps ws shared =
      rw
        (
          take_turns-own l (pool.order (lanes_of ps ws) shared) (lanes_of ps ws) shared,
          sym (own_lanes-parallel l ps ws),
        )
        (simp bind_assoc)

  own-OwnLength : W → KeepsLength ft → OwnLength l.own
  own-OwnLength shared kf f w r e =
      kf.keeps_length f w shared {r = ((r.0, shared), r.1)} (rw (l.is_local f (w, shared), e) refl)

  pub run_parallel-replicate :
      (kf : KeepsLength ft) (n : ℕ) (ws : List (List S)) (shared : W)
      → run_parallel {F = F} (replicate n []) (ws, shared) ≡ some (replicate n [], (ws, shared))
  run_parallel-replicate kf n ws shared =
      rw
        (
          run_parallel-own (replicate n []) ws shared,
          own_parallel-replicate l.own (own-OwnLength shared kf) n ws,
        )
        refl

  -- Filters appended to a channel of a parallel step run after the step, on that channel.
  pub run_parallel-appended :
      (kf : KeepsLength ft) (p : List (List F)) (c : ℕ) (fs : List F) (ws : List (List S))
      (shared : W)
      → c < length p
      → length p ≡ length ws
      → run_parallel (appended p c fs) (ws, shared) ≡ (
          run_parallel p (ws, shared) >>= λ r.
          run_group c fs r.1 >>= λ s. some (appended r.0 c s.0, s.1))
  run_parallel-appended kf p c fs ws shared lt e =
      rw
        (
          run_parallel-own (appended p c fs) ws shared,
          run_parallel-own p ws shared,
          own_parallel-appended l.own (own-OwnLength shared kf) p c fs ws lt e,
        )
        (simp bind_assoc (
          bind_ext (own_parallel l.own p ws) _ _
            λ r k. rw (run_group-own l c fs r.1 shared) (simp bind_assoc)))

pub local_filter-IsLocal :
    {S F W : Type 0} (process : F → List S → Option (List S × F))
    → IsLocal (local_filter {W = W} process)
local_filter-IsLocal process = record { own = process; is_local = λ f x. refl }
