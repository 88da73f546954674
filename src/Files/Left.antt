-- ===== src/Files/Left.antt =====
-- file_backend/device.rs: what the parts of a round of the capture loop leave.
use astra_camilla_dsp.Common.{ℕ, ◌+◌, ◌-◌, ◌≤◌, ◌<◌, ◌≡◌, refl, inl, inr, Bool, true, false, some}
use astra_camilla_dsp.Common.{List, ◌++◌, map, arith, ltb, leb, ◌==◌, if◌then◌else◌, lt→ltb}
use astra_camilla_dsp.Common.{Bool-cases, length, take, drop, replicate, length-append}
use astra_camilla_dsp.Common.{length-replicate, length-map, length-take, length-drop, Yields}
use astra_camilla_dsp.Files.{ReadResult, Returned, ok, err, panic, out_of_fuel, complete, timeout}
use astra_camilla_dsp.Files.{end_of_file}
use astra_camilla_dsp.Files.Limit.{extend, limit_capture_bytes, bytes_of, Reader, Left, slice}
use astra_camilla_dsp.Files.Limit.{fill_missing, match_read}

extend-length :
    (n : ℕ) (buf : List ℕ) → (n ≤ length (extend n buf)) × (length buf ≤ length (extend n buf))
unfolding extend
extend-length n buf =
    let longer = length-append buf (replicate (n - length buf) 0) in
    let zeros = length-replicate {A = ℕ} (n - length buf) 0 in
    elim (Bool-cases (ltb (length buf) n)) [
      | inl e ↦ rw e (omega (arith, longer, zeros), omega (arith, longer, zeros))
      | inr e ↦ rw e (ground (arith, e), omega arith)
    ]

-- An amount that a buffer has room for behind `extend`.
in_buffer :
    (n : ℕ) (buf : List ℕ)
    → (length (take n (extend n buf)) ≡ n)
      × (n ≤ length (extend n buf))
      × (length buf ≤ length (extend n buf))
in_buffer n buf =
    let (room, longer) = extend-length n buf in (length-take n (extend n buf) room, room, longer)

-- An amount within the limit and the given one, which is in the buffer.
abbrev pub Amount : ℕ → ℕ → ℕ → List ℕ → (ℕ × Bool) × List ℕ → Type 0
Amount limit nbr amount buf out =
    (nbr + out.0.0 ≤ limit)
    × (out.0.0 ≤ amount)
    × ((length (take out.0.0 out.1) ≡ out.0.0)
        × (out.0.0 ≤ length out.1)
        × (length buf ≤ length out.1))

pub limit_capture_bytes_lem :
    (limit nbr amount : ℕ) (buf : List ℕ)
    → 0 < limit
    → nbr ≤ limit
    → Yields (Amount limit nbr amount buf) (limit_capture_bytes limit nbr amount buf)
unfolding limit_capture_bytes
limit_capture_bytes_lem limit nbr amount buf h k =
    let none_given : (limit == 0) ≡ false = ground (arith, h) in
    let given = lt→ltb 0 limit h in
    let below : ltb limit nbr ≡ false = ground (arith, k) in
    elim (Bool-cases (leb (nbr + amount) limit)) [
      | inl e ↦
          rw (none_given, given, e)
            (_, refl, (ground (arith, e), omega arith, in_buffer amount buf))
      | inr e ↦
          let over : limit < nbr + amount = ground (arith, e) in
          rw (none_given, given, e, below)
            (_, refl, (omega arith, omega (arith, over), in_buffer (limit - nbr) buf))
    ]

-- The number of bytes, and a buffer that has not become shorter.
abbrev pub HasLeft : ℕ → List ℕ → Left → Type 0
HasLeft limit buf left = (left.1 ≤ limit) × (length buf ≤ length left.2)

slice-HasLeft :
    (amount nbr limit : ℕ) (buf : List ℕ)
    → amount ≤ length buf
    → nbr ≤ limit
    → Yields (HasLeft limit buf) (slice amount nbr buf)
unfolding slice
slice-HasLeft amount nbr limit buf room h =
    let fits : leb amount (length buf) ≡ true = ground (arith, room) in
    rw fits (_, refl, (h, omega arith))

fill_missing-HasLeft :
    (bytes amount nbr limit : ℕ) (buf : List ℕ)
    → bytes ≤ amount
    → amount ≤ length buf
    → nbr ≤ limit
    → Yields (HasLeft limit buf) (fill_missing bytes amount nbr buf)
unfolding fill_missing
fill_missing-HasLeft bytes amount nbr limit buf less room h =
    let ordered : ltb amount bytes ≡ false = ground (arith, less) in
    let missing = drop bytes (take amount buf) in
    let rest : List ℕ = map (λ _. 0) missing ++ drop amount buf in
    let filled : List ℕ = take bytes buf ++ rest in
    let same : length filled ≡ length buf = omega (
      arith,
      less,
      room,
      length-append (take bytes buf) rest,
      length-append (map (λ (_ : ℕ). 0) missing) (drop amount buf),
      length-take bytes buf (omega (arith, less, room)),
      length-map {B = ℕ} missing (λ _. 0),
      length-drop bytes (take amount buf),
      length-take amount buf room,
      length-drop amount buf,
    ) in
    let (left, e, (k, l)) = slice-HasLeft amount nbr limit filled (omega (arith, same, room)) h in
    rw ordered (left, e, (k, omega (arith, same, l)))

-- A reader that returns, leaves the buffer's length, and counts no more bytes than the buffer has.
abbrev pub Honest : {R : Type 0} → ℕ → Returned R → Type 0
Honest size (ok result, (buffer, r)) = (bytes_of result ≤ size) × (length buffer ≡ size)
Honest size (err, (buffer, r)) = length buffer ≡ size
Honest size (panic, (buffer, r)) = ⊥
Honest size (out_of_fuel, (buffer, r)) = ⊥

pub record IsReader {R : Type 0} (reader : Reader R) : Type 0 where
  pub honest : (r : R) (buffer : List ℕ) → Honest (length buffer) (reader.read r buffer)

last_read-HasLeft :
    (ended : Bool) (bytes amount nbr limit : ℕ) (buf : List ℕ)
    → bytes ≤ amount
    → amount ≤ length buf
    → nbr ≤ limit
    → Yields
        (HasLeft limit buf)
        (if ltb 0 bytes then fill_missing bytes amount nbr buf else some (ended, nbr, buf))
last_read-HasLeft ended bytes amount nbr limit buf less room h = elim (Bool-cases (ltb 0 bytes)) [
  | inl e ↦ rw e (fill_missing-HasLeft bytes amount nbr limit buf less room h)
  | inr e ↦ rw e (_, refl, (h, omega arith))
]

match_read-HasLeft :
    (result : ReadResult) (capture_done : Bool) (amount nbr limit : ℕ) (buf : List ℕ)
    → bytes_of result ≤ amount
    → amount ≤ length buf
    → nbr + bytes_of result ≤ limit
    → Yields (HasLeft limit buf) (match_read (ok result) capture_done amount nbr buf)
unfolding match_read bytes_of
match_read-HasLeft (end_of_file bytes) capture_done amount nbr limit buf less room h =
    last_read-HasLeft true bytes amount (nbr + bytes) limit buf less room h
match_read-HasLeft (complete bytes) true amount nbr limit buf less room h =
    last_read-HasLeft true bytes amount (nbr + bytes) limit buf less room h
match_read-HasLeft (complete bytes) false amount nbr limit buf less room h =
    slice-HasLeft amount (nbr + bytes) limit buf room h
match_read-HasLeft (timeout bytes) capture_done amount nbr limit buf less room h =
    last_read-HasLeft false bytes amount (nbr + bytes) limit buf less room h

pub match_read-Honest-HasLeft :
    {R : Type 0} (size : ℕ) (returned : Returned R) (capture_done : Bool) (amount nbr limit : ℕ)
    (rest before : List ℕ)
    → Honest size returned
    → size ≤ amount
    → nbr + size ≤ limit
    → amount ≤ length before
    → length before ≤ size + length rest
    → Yields
        (HasLeft limit before)
        (match_read returned.0 capture_done amount nbr (returned.1.0 ++ rest))
unfolding match_read
match_read-Honest-HasLeft size (ok result, (buffer, r)) capture_done amount nbr limit rest before
      (less, e) fits h room long =
    let longer = length-append buffer rest in
    let (left, k, (n, l)) =
      match_read-HasLeft result capture_done amount nbr limit (buffer ++ rest)
        (omega (arith, less, fits)) (omega (arith, longer, e, room, long))
        (omega (arith, less, h)) in
    (left, k, (n, omega (arith, l, longer, e, long)))
match_read-Honest-HasLeft size (err, (buffer, r)) capture_done amount nbr limit rest before e fits h
      room long =
    let longer = length-append buffer rest in
    let (left, k, (n, l)) =
      slice-HasLeft amount nbr limit (buffer ++ rest) (omega (arith, longer, e, room, long))
        (omega (arith, h)) in
    (left, k, (n, omega (arith, l, longer, e, long)))
match_read-Honest-HasLeft size (panic, (buffer, r)) capture_done amount nbr limit rest before e fits
      h room long =
    absurd e
match_read-Honest-HasLeft size (out_of_fuel, (buffer, r)) capture_done amount nbr limit rest before
      e fits h room long =
    absurd e
