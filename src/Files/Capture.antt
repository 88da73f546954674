-- ===== src/Files/Capture.antt =====
-- file_backend/device.rs: the rounds of the capture loop keep to the limit on the bytes.
use astra_camilla_dsp.Common.{ℕ, ◌≤◌, ◌<◌, refl, inl, inr, List, [], ◌∷◌, arith, Bool-cases}
use astra_camilla_dsp.Common.{length, take, drop, All, All-map, length-drop, Yields}
use astra_camilla_dsp.Files.Limit.{Reader, capture_round, capture_rounds}
use astra_camilla_dsp.Files.Left.{IsReader, HasLeft, limit_capture_bytes_lem}
use astra_camilla_dsp.Files.Left.{match_read-Honest-HasLeft}

module _ {R : Type 0} ⦃reader : Reader R⦄ (honest : IsReader reader) where
  capture_round-HasLeft :
      (limit nbr amount : ℕ) (buf : List ℕ) (file : R)
      → 0 < limit
      → nbr ≤ limit
      → amount ≤ length buf
      → Yields (λ out. HasLeft limit buf out.0) (capture_round limit nbr buf file amount)
  unfolding capture_round
  capture_round-HasLeft limit nbr amount buf file h k room =
      let (limited, e, (within, less, (size, inside, longer))) =
        limit_capture_bytes_lem limit nbr amount buf h k in
      let slice_read = take limited.0.0 limited.1 in
      let rest = length-drop limited.0.0 limited.1 in
      let (left, e', kept) =
        match_read-Honest-HasLeft (length slice_read) (reader.read file slice_read) limited.0.1
          amount nbr limit (drop limited.0.0 limited.1) buf (honest.honest file slice_read)
          (omega (arith, size, less)) (omega (arith, size, within)) room
          (omega (arith, size, rest, inside, longer)) in
      rw (e, e') (_, refl, kept)

  -- Let a limit other than 0 be given, and no more bytes be read than it allows, and let the buffer
  -- have room for the bytes that each round is to capture. Whatever a reader gives that returns, leaves
  -- the buffer's length, and counts no more than fits into it, no round panics and the bytes that are
  -- read in all stay within the limit.
  pub capture_rounds-Within :
      (limit nbr : ℕ) (buf : List ℕ) (file : R) (amounts : List ℕ)
      → 0 < limit
      → nbr ≤ limit
      → All (λ amount. amount ≤ length buf) amounts
      → Yields (λ out. (out.0).1 ≤ limit) (capture_rounds limit nbr buf file amounts)
  unfolding capture_rounds
  capture_rounds-Within limit nbr buf file [] h k room = (_, refl, k)
  capture_rounds-Within limit nbr buf file (amount ∷ amounts) h k room =
      let (next, e, (within, longer)) =
        capture_round-HasLeft limit nbr amount buf file h k room.0 in
      let later = capture_rounds-Within limit (next.0).1 (next.0).2 next.1 amounts h within (
        All-map {P = λ n. n ≤ length buf} {Q = λ n. n ≤ length (next.0).2} amounts
          (λ n r. omega (arith, r, longer)) room.1) in
      rw e (elim (Bool-cases (next.0).0) [
        | inl ended ↦ rw ended (next, refl, within)
        | inr going ↦ rw going later
      ])
