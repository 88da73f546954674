-- ===== src/Files/Limit.antt =====
-- file_backend/device.rs: the limit on the bytes that a file capture device reads. `none` is a panic.
use astra_camilla_dsp.Common.{ℕ, ◌+◌, ◌-◌, Bool, true, false, ◌&&◌, ◌||◌, Option, none, some}
use astra_camilla_dsp.Common.{List, [], ◌∷◌, ◌++◌, map, ltb, leb, ◌==◌, if◌then◌else◌, length}
use astra_camilla_dsp.Common.{take, drop, replicate, ◌>>=◌}
use astra_camilla_dsp.Files.{Outcome, ReadResult, Returned, ok, err, panic, out_of_fuel, complete}
use astra_camilla_dsp.Files.{timeout, end_of_file}

-- `buf.append(...)` with as many zeros as the buffer is too short.
unfoldable pub extend : ℕ → List ℕ → List ℕ
extend capture_bytes buf =
    if ltb (length buf) capture_bytes then buf ++ replicate (capture_bytes - length buf) 0 else buf

-- The amount to read, whether the limit is reached, and the buffer with zeros for what it lacks. A
-- limit of 0 is none. Below 0 the subtraction panics.
unfoldable pub limit_capture_bytes : ℕ → ℕ → ℕ → List ℕ → Option ((ℕ × Bool) × List ℕ)
unfolding extend
limit_capture_bytes bytes_to_read nbr_bytes_read capture_bytes buf = do
  limited ←
      if (bytes_to_read == 0)
        || (ltb 0 bytes_to_read && leb (nbr_bytes_read + capture_bytes) bytes_to_read)
      then some (capture_bytes, false)
      else if ltb bytes_to_read nbr_bytes_read
      then none
      else some (bytes_to_read - nbr_bytes_read, true)
  some (limited, extend limited.0 buf)

-- `trait Reader`.
pub record Reader (R : Type 0) : Type 0 where
  pub read : R → List ℕ → Returned R

-- What a round of the loop leaves: whether the loop ends, the bytes read in all, and the buffer.
abbrev pub Left : Type 0
Left = Bool × ℕ × List ℕ

-- `&buf[0..bytes_to_capture]`, behind the match.
unfoldable pub slice : ℕ → ℕ → List ℕ → Option Left
slice bytes_to_capture nbr_bytes_read buf =
    if leb bytes_to_capture (length buf) then some (false, nbr_bytes_read, buf) else none

-- The bytes that a result counts.
unfoldable pub bytes_of : ReadResult → ℕ
bytes_of (complete bytes) = bytes
bytes_of (timeout bytes) = bytes
bytes_of (end_of_file bytes) = bytes

-- The bytes that were not read are set to zero, and their number is taken.
unfoldable pub fill_missing : ℕ → ℕ → ℕ → List ℕ → Option Left
unfolding slice
fill_missing bytes bytes_to_capture nbr_bytes_read buf =
    if ltb bytes_to_capture bytes
    then none
    else slice bytes_to_capture nbr_bytes_read (
        take bytes buf
        ++ (map (λ _. 0) (drop bytes (take bytes_to_capture buf)) ++ drop bytes_to_capture buf))

-- The match on what was read, as far as it is about the bytes: a read of nothing ends the loop at the
-- end of the file or the limit, and the round at a timeout.
unfoldable pub match_read : Outcome → Bool → ℕ → ℕ → List ℕ → Option Left
unfolding slice fill_missing
match_read (ok (end_of_file bytes)) capture_done bytes_to_capture nbr buf =
    if ltb 0 bytes
    then fill_missing bytes bytes_to_capture (nbr + bytes) buf
    else some (true, nbr + bytes, buf)
match_read (ok (complete bytes)) true bytes_to_capture nbr buf =
    if ltb 0 bytes
    then fill_missing bytes bytes_to_capture (nbr + bytes) buf
    else some (true, nbr + bytes, buf)
match_read (ok (complete bytes)) false bytes_to_capture nbr buf =
    slice bytes_to_capture (nbr + bytes) buf
match_read (ok (timeout bytes)) capture_done bytes_to_capture nbr buf =
    if ltb 0 bytes
    then fill_missing bytes bytes_to_capture (nbr + bytes) buf
    else some (false, nbr + bytes, buf)
match_read err capture_done bytes_to_capture nbr buf = slice bytes_to_capture nbr buf
match_read panic capture_done bytes_to_capture nbr buf = none
match_read out_of_fuel capture_done bytes_to_capture nbr buf = none

module _ {R : Type 0} ⦃reader : Reader R⦄ where
  -- A round of `capture_loop` on the buffer and the file, for the number of bytes to capture in it.
  unfoldable pub capture_round : ℕ → ℕ → List ℕ → R → ℕ → Option (Left × R)
  capture_round read_bytes nbr_bytes_read buf file bytes_to_capture = do
    limited ← limit_capture_bytes read_bytes nbr_bytes_read bytes_to_capture buf
    let read_res = reader.read file (take limited.0.0 limited.1)
    left ←
        match_read read_res.0 limited.0.1 bytes_to_capture nbr_bytes_read
          (read_res.1.0 ++ drop limited.0.0 limited.1)
    some (left, read_res.1.1)

  -- The rounds, for the numbers of bytes that they are to capture, until the loop ends.
  unfoldable pub capture_rounds : ℕ → ℕ → List ℕ → R → List ℕ → Option (Left × R)
  capture_rounds read_bytes nbr_bytes_read buf file [] = some ((false, nbr_bytes_read, buf), file)
  capture_rounds read_bytes nbr_bytes_read buf file (bytes ∷ more) = do
    next ← capture_round read_bytes nbr_bytes_read buf file bytes
    let rest = capture_rounds read_bytes (next.0).1 (next.0).2 next.1 more
    if (next.0).0 then some next else rest
