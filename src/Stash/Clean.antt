-- ===== src/Stash/Clean.antt =====
-- utils/stash.rs: what a stash holds is silent, empty and bounded, so that what is taken from it
-- is as good as newly allocated.
use astra_camilla_dsp.Common.{ℕ, zero, suc, ◌≤◌, ◌≡◌, refl, ap, ap₂, inl, inr, List, [], ◌∷◌, map}
use astra_camilla_dsp.Common.{arith, leb, if◌then◌else◌, Bool-cases, length, replicate, resize}
use astra_camilla_dsp.Common.{All}
use astra_camilla_dsp.Arith.{Arith, nought}
use astra_camilla_dsp.Stash.{Stash, max_stash_size, max_container_stash_size, vec_from_stash}
use astra_camilla_dsp.Stash.{recycle_vec, recycle_vecs, recycle_container, container_from_stash}
use astra_camilla_dsp.Stash.{from_buffers, from_containers}

module _ {S : Type 0} ⦃a : Arith S⦄ where
  abbrev pub IsSilent : List S → Type 0
  IsSilent = All (λ v. v ≡ nought)

  pub record IsClean (s : Stash S) : Type 0 where
    pub silent : All IsSilent s.buffers
    pub drained : All (λ (c : List (List S)). c ≡ []) s.containers
    pub buffers_bounded : length s.buffers ≤ max_stash_size
    pub containers_bounded : length s.containers ≤ max_container_stash_size

  resize-IsSilent : (n : ℕ) (v : List S) → IsSilent v → resize n nought v ≡ replicate n nought
  resize-IsSilent zero v h = refl
  resize-IsSilent (suc n) [] h = ap (λ t. nought ∷ t) (resize-IsSilent n [] h)
  resize-IsSilent (suc n) (x ∷ v) h = ap₂ ◌∷◌ h.0 (resize-IsSilent n v h.1)

  map-IsSilent : (v : List S) → IsSilent (map (λ _. nought) v)
  map-IsSilent [] = tt
  map-IsSilent (x ∷ v) = (refl, map-IsSilent v)

  from_buffers_lem :
      (n : ℕ) (bs : List (List S)) (cs : List (List (List S)))
      → IsClean (record { buffers = bs; containers = cs })
      → ((from_buffers n bs cs).0 ≡ replicate n nought) × IsClean (from_buffers n bs cs).1
  unfolding from_buffers
  from_buffers_lem n [] cs c = (refl, c)
  from_buffers_lem n (v ∷ bs) cs c = (
    resize-IsSilent n v c.silent.0,
    record {
      silent = c.silent.1;
      drained = c.drained;
      buffers_bounded = omega arith;
      containers_bounded = c.containers_bounded;
    },
  )

  -- A vector taken from a clean stash is zeros of the length asked for, as a newly allocated one, and
  -- the stash stays clean.
  pub vec_from_stash_lem :
      (n : ℕ) (s : Stash S)
      → IsClean s
      → ((vec_from_stash n s).0 ≡ replicate n nought) × IsClean (vec_from_stash n s).1
  unfolding vec_from_stash
  vec_from_stash_lem n s c = from_buffers_lem n s.buffers s.containers c

  from_containers_lem :
      (bs : List (List S)) (cs : List (List (List S)))
      → IsClean (record { buffers = bs; containers = cs })
      → ((from_containers bs cs).0 ≡ []) × IsClean (from_containers bs cs).1
  unfolding from_containers
  from_containers_lem bs [] c = (refl, c)
  from_containers_lem bs (d ∷ cs) c = (
    c.drained.0,
    record {
      silent = c.silent;
      drained = c.drained.1;
      buffers_bounded = c.buffers_bounded;
      containers_bounded = omega arith;
    },
  )

  -- A container from a clean stash is empty, and the rest is clean.
  pub container_from_stash_lem :
      (s : Stash S)
      → IsClean s
      → ((container_from_stash s).0 ≡ []) × IsClean (container_from_stash s).1
  unfolding container_from_stash
  container_from_stash_lem s c = from_containers_lem s.buffers s.containers c

  -- A returned waveform is silenced, and dropped where the stash is full.
  pub recycle_vec-IsClean : (v : List S) (s : Stash S) → IsClean s → IsClean (recycle_vec v s)
  unfolding recycle_vec
  recycle_vec-IsClean v s c = elim (Bool-cases (leb max_stash_size (length s.buffers))) [
    | inl full ↦ rw full c
    | inr room ↦ rw room (record {
      silent = (map-IsSilent v, c.silent);
      drained = c.drained;
      buffers_bounded = ground arith;
      containers_bounded = c.containers_bounded;
    })
  ]

  recycle_vecs-IsClean :
      (vs : List (List S)) (s : Stash S) → IsClean s → IsClean (recycle_vecs vs s)
  unfolding recycle_vecs
  recycle_vecs-IsClean [] s c = c
  recycle_vecs-IsClean (v ∷ vs) s c =
      recycle_vecs-IsClean vs (recycle_vec v s) (recycle_vec-IsClean v s c)

  push_container-IsClean :
      (t : Stash S)
      → IsClean t
      → IsClean (
          if leb max_container_stash_size (length t.containers)
          then t
          else record t { containers = [] ∷ t.containers })
  push_container-IsClean t c =
      elim (Bool-cases (leb max_container_stash_size (length t.containers))) [
        | inl full ↦ rw full c
        | inr room ↦ rw room (record {
          silent = c.silent;
          drained = (refl, c.drained);
          buffers_bounded = c.buffers_bounded;
          containers_bounded = ground arith;
        })
      ]

  -- Whatever a container holds that is returned to a clean stash, the stash stays clean: its vectors
  -- are all zeros, its containers are empty, and both stacks keep to their maximal sizes.
  pub recycle_container-IsClean :
      (c : List (List S)) (s : Stash S) → IsClean s → IsClean (recycle_container c s)
  unfolding recycle_container
  recycle_container-IsClean c s h =
      push_container-IsClean (recycle_vecs c s) (recycle_vecs-IsClean c s h)
