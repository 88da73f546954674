-- ===== src/Playback/RingBuffer.antt =====
use astra_camilla_dsp.Common.{ℕ, zero, suc, ◌-◌, ◌≤◌, min, ◌≡◌, refl, sym, ap, ◌∙◌, inl, inr}
use astra_camilla_dsp.Common.{List, [], ◌∷◌, ◌++◌, arith, ltb, if◌then◌else◌, Bool-cases, length}
use astra_camilla_dsp.Common.{take, drop, replicate, length-append, length-replicate, length-take}
use astra_camilla_dsp.Common.{length-drop}

-- utils/ringbuffer.rs: filling the buffer of a playback device. The consumer of the crate ringbuf is a
-- parameter: its operations, and what its documentation says of them.

pub record Consumer (Q : Type 0) : Type 0 where
  pub occupied_len : Q → ℕ
  pub pop_slice : Q → ℕ → List ℕ × Q

-- The oldest bytes come first, as many as the slice takes and the buffer has.
pub record IsConsumer {Q : Type 0} (c : Consumer Q) : Type 0 where
  pub contents : Q → List ℕ
  pub occupied : (q : Q) → c.occupied_len q ≡ length (contents q)
  pub popped : (q : Q) (n : ℕ) → (c.pop_slice q n).0 ≡ take n (contents q)
  pub remaining : (q : Q) (n : ℕ) → contents (c.pop_slice q n).1 ≡ drop n (contents q)

-- `out_slice[start..].fill(0)`
abbrev pub fill_from : ℕ → List ℕ → List ℕ
fill_from start [] = []
fill_from zero (x ∷ xs) = 0 ∷ fill_from zero xs
fill_from (suc start) (x ∷ xs) = x ∷ fill_from start xs

fill_from-append :
    (xs ys : List ℕ) → fill_from (length xs) (xs ++ ys) ≡ xs ++ replicate (length ys) 0
fill_from-append [] [] = refl
fill_from-append [] (y ∷ ys) = ap (λ t. 0 ∷ t) (fill_from-append [] ys)
fill_from-append (x ∷ xs) ys = ap (λ t. x ∷ t) (fill_from-append xs ys)

-- The slice that was filled, the bytes that were there and those that were taken, and the buffer.
pub record Filled (Q : Type 0) : Type 0 where
  pub out_slice : List ℕ
  pub available_bytes : ℕ
  pub bytes_from_rb : ℕ
  pub consumer : Q

module _ {Q : Type 0} ⦃c : Consumer Q⦄ where
  -- `pop_slice` into the front of the slice.
  abbrev pub pop_into : Q → ℕ → List ℕ → List ℕ × Q
  pop_into q n out = let (bytes, q') = c.pop_slice q n in (bytes ++ drop n out, q')

  unfoldable pub fill_playback_output_from_ringbuffer : Q → List ℕ → Filled Q
  fill_playback_output_from_ringbuffer q out_slice =
      let max_bytes = length out_slice in
      let available_bytes = c.occupied_len q in
      let bytes_from_rb = min available_bytes max_bytes in
      let copied : List ℕ × Q =
        if ltb 0 bytes_from_rb then pop_into q bytes_from_rb out_slice else (out_slice, q) in
      record {
        out_slice =
            if ltb bytes_from_rb max_bytes then fill_from bytes_from_rb copied.0 else copied.0;
        available_bytes = available_bytes;
        bytes_from_rb = bytes_from_rb;
        consumer = copied.1;
      }

  module _ (k : IsConsumer c) (q : Q) (out_slice : List ℕ) (n : ℕ) where
    abbrev copied : List ℕ × Q
    copied = if ltb 0 n then pop_into q n out_slice else (out_slice, q)

    copied_lem :
        (copied.0 ≡ take n (k.contents q) ++ drop n out_slice)
        × (k.contents copied.1 ≡ drop n (k.contents q))
    copied_lem = elim (Bool-cases (ltb 0 n)) [
      | inl some_bytes ↦
          rw some_bytes (ap (λ t. t ++ drop n out_slice) (k.popped q n), k.remaining q n)
      | inr no_bytes ↦ let nought : n ≡ 0 = ground arith in rw (no_bytes, nought) (refl, refl)
    ]

    filled_lem :
        n ≤ length (k.contents q)
        → n ≤ length out_slice
        → (if ltb n (length out_slice) then fill_from n copied.0 else copied.0)
          ≡ take n (k.contents q) ++ replicate (length out_slice - n) 0
    filled_lem h h' = elim (Bool-cases (ltb n (length out_slice))) [
      | inl less ↦
          let at_n = length-take n (k.contents q) h in
          rw less (
            ap (fill_from n) copied_lem.0
            ∙ ap (λ i. fill_from i (take n (k.contents q) ++ drop n out_slice)) (sym at_n)
            ∙ fill_from-append (take n (k.contents q)) (drop n out_slice)
            ∙ ap (λ i. take n (k.contents q) ++ replicate i 0) (length-drop n out_slice))
      | inr full ↦
          let none_left : length out_slice - n ≡ 0 = ground arith in
          let nothing : drop n out_slice ≡ [] =
            nil_of_length (drop n out_slice) (length-drop n out_slice ∙ none_left) in
          rw (full, none_left) (copied_lem.0 ∙ ap (λ t. take n (k.contents q) ++ t) nothing)
    ]
      where
        nil_of_length : (xs : List ℕ) → length xs ≡ 0 → xs ≡ []
        nil_of_length [] e = refl
        nil_of_length (x ∷ xs) e = absurd (omega arith)

  -- The buffer of a device is filled with the oldest bytes of the ring buffer, in their order, and with
  -- zeros where there are no more, to the length that it had; the ring buffer keeps the bytes that were
  -- not taken. The consumer is assumed to be one, as its crate says.
  pub fill_playback_output_from_ringbuffer-eq :
      (k : IsConsumer c) (q : Q) (out_slice : List ℕ)
      → let filled = fill_playback_output_from_ringbuffer q out_slice in
        let n = min (length (k.contents q)) (length out_slice) in
        (filled.out_slice ≡ take n (k.contents q) ++ replicate (length out_slice - n) 0)
        × (k.contents filled.consumer ≡ drop n (k.contents q))
        × (filled.available_bytes ≡ length (k.contents q))
        × (filled.bytes_from_rb ≡ n)
        × (length filled.out_slice ≡ length out_slice)
  unfolding fill_playback_output_from_ringbuffer
  fill_playback_output_from_ringbuffer-eq k q out_slice =
      let n = min (length (k.contents q)) (length out_slice) in
      let filled = filled_lem k q out_slice n (omega arith) (omega arith) in
      let left = (copied_lem k q out_slice n).1 in
      let size : length (take n (k.contents q) ++ replicate (length out_slice - n) 0)
          ≡ length out_slice =
        omega (
          arith,
          length-append (take n (k.contents q)) (replicate (length out_slice - n) 0),
          length-take n (k.contents q) (omega arith),
          length-replicate {A = ℕ} (length out_slice - n) 0,
        ) in
      rw (k.occupied q) (filled, left, refl, refl, ap length filled ∙ size)
