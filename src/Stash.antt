-- ===== src/Stash.antt =====
-- utils/stash.rs: the two global stacks from which waveforms and containers of waveforms are taken
-- and to which they are returned. Each function takes the stash and gives it back; the allocated
-- capacity of a vector cannot be observed and is left out.
pub mod Clean
use astra_camilla_dsp.Common.{ℕ, List, [], ◌∷◌, map, leb, if◌then◌else◌, length, replicate}
use astra_camilla_dsp.Common.{resize}
use astra_camilla_dsp.Arith.{Arith, nought}

abbrev pub max_stash_size : ℕ
max_stash_size = 1024

abbrev pub max_container_stash_size : ℕ
max_container_stash_size = 128

-- The head of a list is the element that `Vec::pop` returns.
pub record Stash (S : Type 0) : Type 0 where
  pub buffers : List (List S)
  pub containers : List (List (List S))

module _ {S : Type 0} ⦃a : Arith S⦄ where
  from_buffers : ℕ → List (List S) → List (List (List S)) → List S × Stash S
  from_buffers capacity [] cs =
      (replicate capacity nought, record { buffers = []; containers = cs })
  from_buffers capacity (v ∷ vs) cs =
      (resize capacity nought v, record { buffers = vs; containers = cs })

  pub vec_from_stash : ℕ → Stash S → List S × Stash S
  unfolding from_buffers
  vec_from_stash capacity s = from_buffers capacity s.buffers s.containers

  pub recycle_vec : List S → Stash S → Stash S
  recycle_vec v s =
      if leb max_stash_size (length s.buffers)
      then s
      else record s { buffers = map (λ _. nought) v ∷ s.buffers }

  pub recycle_vecs : List (List S) → Stash S → Stash S
  recycle_vecs [] s = s
  recycle_vecs (v ∷ vs) s = recycle_vecs vs (recycle_vec v s)

  -- The drained container is what goes back.
  pub recycle_container : List (List S) → Stash S → Stash S
  recycle_container c s =
      let t = recycle_vecs c s in
      if leb max_container_stash_size (length t.containers)
      then t
      else record t { containers = [] ∷ t.containers }

module _ {S : Type 0} where
  from_containers : List (List S) → List (List (List S)) → List (List S) × Stash S
  from_containers bs [] = ([], record { buffers = bs; containers = [] })
  from_containers bs (c ∷ cs) = (c, record { buffers = bs; containers = cs })

  pub container_from_stash : Stash S → List (List S) × Stash S
  unfolding from_containers
  container_from_stash s = from_containers s.buffers s.containers
