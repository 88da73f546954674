-- ===== src/Files/Blocking.antt =====
-- file_backend/filereader.rs: what `BlockingReader::read` returns.
use astra_camilla_dsp.Common.{ℕ, zero, suc, ◌+◌, ◌-◌, ◌<◌, ◌≡◌, refl, sym, ap, ◌∙◌, Bool, true}
use astra_camilla_dsp.Common.{false, List, [], ◌∷◌, ◌++◌, append-nil, append_assoc, arith, ltb}
use astra_camilla_dsp.Common.{length, take, drop, length-append, length-drop, take-append}
use astra_camilla_dsp.Files.{Read, Received, Returned, ok, err, panic, out_of_fuel, got}
use astra_camilla_dsp.Files.{interrupted, failed, complete, timeout, end_of_file, receive}
use astra_camilla_dsp.Files.{blocking_loop, blocking_read}
use astra_camilla_dsp.Files.Stream.{View, IsStream, Reads}

module _ {R : Type 0} ⦃rd : Read R⦄ {view : View R} (stream : IsStream view rd) where
  -- With the bytes `all` to come and a buffer of `n` bytes: a full buffer and what is left of them, or
  -- all of them at the front of the buffer; an error only from a source that fails.
  abbrev pub IsRead : List ℕ → Bool → ℕ → Returned R → Type 0
  IsRead all fails n (ok (complete m), (buffer, r)) =
      (m ≡ n) × (length buffer ≡ n) × (all ≡ buffer ++ view.contents r)
  IsRead all fails n (ok (end_of_file m), (buffer, r)) =
      (m < n) × (length buffer ≡ n) × (take m buffer ≡ all) × (view.contents r ≡ [])
  IsRead all fails n (ok (timeout m), (buffer, r)) = ⊥
  IsRead all fails n (err, (buffer, r)) = (fails ≡ true) × (length buffer ≡ n)
  IsRead all fails n (panic, (buffer, r)) = ⊥
  IsRead all fails n (out_of_fuel, (buffer, r)) = ⊥

  abbrev Ok : List ℕ → Bool → List ℕ → List ℕ → ℕ → R → Type 0
  Ok all fails done rest n r =
      (length done + length rest ≡ n) × (all ≡ done ++ view.contents r) × (view.fails r ≡ fails)

  receive-IsRead :
      (all : List ℕ) (fails : Bool) (n : ℕ) (r : R) (done rest : List ℕ) (x : ℕ)
      (got_in : Received × R) (go_on : R → List ℕ → List ℕ → ℕ → Returned R)
      → Ok all fails done (x ∷ rest) n r
      → Reads view r (length (x ∷ rest)) got_in
      → ((r' : R) (done' rest' : List ℕ) (k : ℕ)
          → Ok all fails done' rest' n r'
          → length rest' + view.interruptions r' < length (x ∷ rest) + view.interruptions r
          → IsRead all fails n (go_on r' done' rest' k))
      → IsRead all fails n
          (receive (end_of_file (n - length (x ∷ rest))) got_in done (x ∷ rest) go_on)
  unfolding receive
  receive-IsRead all fails n r done rest x (got [], r') go_on (size, e, f) (c, l, i, g, h) k =
      let at_end : view.contents r ≡ [] = h refl (omega arith) in
      let m : n - length (x ∷ rest) ≡ length done = omega (arith, size) in
      let all_done : all ≡ done = e ∙ ap (λ t. done ++ t) at_end ∙ append-nil done in
      (
        omega (arith, size),
        length-append done (x ∷ rest) ∙ size,
        ap (λ t. take t (done ++ (x ∷ rest))) m ∙ take-append done (x ∷ rest) ∙ sym all_done,
        sym c ∙ at_end,
      )
  receive-IsRead all fails n r done rest x (got (b ∷ bs), r') go_on (size, e, f) (c, l, i, g, h) k =
      let fits : ltb (length (x ∷ rest)) (length (b ∷ bs)) ≡ false = ground (arith, l) in
      let dropped = length-drop (length (b ∷ bs)) (x ∷ rest) in
      rw fits (
        k r' (done ++ (b ∷ bs)) (drop (length (b ∷ bs)) (x ∷ rest)) (length (b ∷ bs))
          (
            omega (arith, size, l, dropped, length-append done (b ∷ bs)),
            e ∙ ap (λ t. done ++ t) c ∙ sym (append_assoc done (b ∷ bs) (view.contents r')),
            g ∙ f,
          )
          (omega (arith, dropped, l, i)))
  receive-IsRead all fails n r done rest x (interrupted, r') go_on (size, e, f) (c, i, g) k =
      k r' done (x ∷ rest) 0 (size, rw (sym c) e, g ∙ f) (omega arith)
  receive-IsRead all fails n r done rest x (failed, r') go_on (size, e, f) h k =
      (sym f ∙ h, length-append done (x ∷ rest) ∙ size)

  loop-IsRead :
      (fuel : ℕ) (all : List ℕ) (fails : Bool) (n : ℕ) (r : R) (done rest : List ℕ)
      → Ok all fails done rest n r
      → length rest + view.interruptions r < fuel
      → IsRead all fails n (blocking_loop fuel n r done rest)
  unfolding blocking_loop
  loop-IsRead zero all fails n r done rest h k = absurd (omega arith)
  loop-IsRead (suc fuel) all fails n r done [] (size, e, f) k = (refl, omega (arith, size), e)
  loop-IsRead (suc fuel) all fails n r done (x ∷ rest) h k =
      receive-IsRead all fails n r done rest x (rd.read r (length (x ∷ rest))) _ h
        (stream.reads r (length (x ∷ rest)))
        (λ r' done' rest' m h' less. loop-IsRead fuel all fails n r' done' rest' h' (omega arith))

  -- For a source of bytes and a fuel above the buffer's length and the interruptions to come, the
  -- reader returns: the full buffer of the next bytes, or the end of file with all bytes that were
  -- left, counted; or an error, if the source is one that fails.
  pub blocking_read-IsRead :
      (fuel : ℕ) (r : R) (buffer : List ℕ)
      → length buffer + view.interruptions r < fuel
      → IsRead (view.contents r) (view.fails r) (length buffer) (blocking_read fuel r buffer)
  unfolding blocking_read
  blocking_read-IsRead fuel r buffer enough =
      loop-IsRead fuel (view.contents r) (view.fails r) (length buffer) r [] buffer
        (omega arith, refl, refl) enough
