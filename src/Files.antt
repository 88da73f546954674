-- ===== src/Files.antt =====
-- file_backend/filereader.rs and file_backend/filereader_nonblock.rs: reading into a buffer from a
-- source that gives its bytes in portions. `std::io::Read`, `ppoll` and the clock are parameters; a
-- buffer is the bytes written so far and the bytes behind them. Sleeping is left out.
pub mod Stream
pub mod Blocking
pub mod Polling
pub mod Limit
pub mod Left
pub mod Capture
pub mod Readers
pub mod Tests
use astra_camilla_dsp.Common.{ℕ, zero, suc, ◌+◌, ◌-◌, Bool, List, [], ◌∷◌, ◌++◌, ltb}
use astra_camilla_dsp.Common.{if◌then◌else◌, length, drop}

-- What one call of `Read::read` gives.
pub data Received : Type 0 where
  got : List ℕ → Received
  interrupted failed : Received

pub record Read (R : Type 0) : Type 0 where
  pub read : R → ℕ → Received × R

pub data Polled : Type 0 where
  ready timed_out poll_failed : Polled

-- `ppoll`, and whether more than the time limit has passed since the start.
pub record Poll (R : Type 0) : Type 0 where
  pub ppoll : R → Polled × R
  pub is_late : R → Bool × R

pub data ReadResult : Type 0 where
  complete timeout end_of_file : ℕ → ReadResult

-- A loop that is cut off is `out_of_fuel`.
pub data Outcome : Type 0 where
  ok : ReadResult → Outcome
  err panic out_of_fuel : Outcome

-- The result, the buffer and the source.
abbrev pub Returned : Type 0 → Type 0
Returned R = Outcome × (List ℕ × R)

module _ {R : Type 0} where
  -- The arms on what was received; `go_on` takes the written bytes, the others and their number.
  unfoldable pub receive :
      ReadResult
      → Received × R
      → List ℕ
      → List ℕ
      → (R → List ℕ → List ℕ → ℕ → Returned R)
      → Returned R
  receive ended (got [], r) done rest go_on = (ok ended, (done ++ rest, r))
  receive ended (got (b ∷ bs), r) done rest go_on =
      if ltb (length rest) (length (b ∷ bs))
      then (panic, (done ++ rest, r))
      else go_on r (done ++ (b ∷ bs)) (drop (length (b ∷ bs)) rest) (length (b ∷ bs))
  receive ended (interrupted, r) done rest go_on = go_on r done rest 0
  receive ended (failed, r) done rest go_on = (err, (done ++ rest, r))

module _ {R : Type 0} ⦃rd : Read R⦄ where
  -- `BlockingReader`: the loop while the rest of the buffer is not empty.
  unfoldable pub blocking_loop : ℕ → ℕ → R → List ℕ → List ℕ → Returned R
  blocking_loop zero requested r done rest = (out_of_fuel, (done ++ rest, r))
  blocking_loop (suc fuel) requested r done [] = (ok (complete requested), (done, r))
  blocking_loop (suc fuel) requested r done (x ∷ rest) =
      receive (end_of_file (requested - length (x ∷ rest))) (rd.read r (length (x ∷ rest))) done
        (x ∷ rest) (λ r' done' rest' n. blocking_loop fuel requested r' done' rest')

  unfoldable pub blocking_read : ℕ → R → List ℕ → Returned R
  blocking_read fuel r data_buffer = blocking_loop fuel (length data_buffer) r [] data_buffer

module _ {R : Type 0} ⦃rd : Read R⦄ ⦃po : Poll R⦄ where
  -- The arms on the result of `ppoll`.
  unfoldable pub when_polled : Polled × R → List ℕ → List ℕ → ℕ → (R → Returned R) → Returned R
  when_polled (ready, r) done rest bytes_read go_on = go_on r
  when_polled (timed_out, r) done rest bytes_read go_on =
      (ok (timeout bytes_read), (done ++ rest, r))
  when_polled (poll_failed, r) done rest bytes_read go_on = (err, (done ++ rest, r))

  -- The end of a round of the loop.
  unfoldable pub end_round : (R → Returned R) → R → List ℕ → List ℕ → ℕ → Returned R
  end_round go_on r done [] bytes_read = (ok (complete bytes_read), (done, r))
  end_round go_on r done (x ∷ rest) bytes_read =
      let (late, r') = po.is_late r in
      if late then (ok (timeout bytes_read), (done ++ (x ∷ rest), r')) else go_on r'

  -- `NonBlockingReader`: the loop.
  unfoldable pub polling_loop : ℕ → R → List ℕ → List ℕ → ℕ → Returned R
  unfolding when_polled end_round
  polling_loop zero r done rest bytes_read = (out_of_fuel, (done ++ rest, r))
  polling_loop (suc fuel) r done rest bytes_read =
      when_polled (po.ppoll r) done rest bytes_read (λ r'.
        receive (end_of_file bytes_read) (rd.read r' (length rest)) done rest (λ r₁ done' rest' n.
          end_round (λ r₂. polling_loop fuel r₂ done' rest' (bytes_read + n)) r₁ done' rest'
            (bytes_read + n)))

  unfoldable pub polling_read : ℕ → R → List ℕ → Returned R
  polling_read fuel r data_buffer = polling_loop fuel r [] data_buffer 0
