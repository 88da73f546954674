-- ===== src/Files/Polling.antt =====
-- file_backend/filereader_nonblock.rs: what `NonBlockingReader::read` returns.
use astra_camilla_dsp.Common.{ℕ, zero, suc, ◌+◌, ◌≤◌, ◌<◌, ◌≡◌, refl, sym, ap, ◌∙◌, subst, inl}
use astra_camilla_dsp.Common.{inr, Bool, true, false, List, [], ◌∷◌, ◌++◌, append-nil}
use astra_camilla_dsp.Common.{append_assoc, arith, ltb, Bool-cases, length, take, drop}
use astra_camilla_dsp.Common.{length-append, length-drop, take-append}
use astra_camilla_dsp.Files.{Read, Poll, Polled, Received, Returned, ok, err, panic, got}
use astra_camilla_dsp.Files.{interrupted, failed, complete, timeout, end_of_file, receive}
use astra_camilla_dsp.Files.{polling_loop, polling_read, end_round, when_polled, out_of_fuel}
use astra_camilla_dsp.Files.{ready, timed_out, poll_failed}
use astra_camilla_dsp.Files.Stream.{View, IsStream, IsPoll, Reads, Polls, Waits}

module _ {R : Type 0} ⦃rd : Read R⦄ ⦃po : Poll R⦄ {view : View R} (stream : IsStream view rd)
    (poll : IsPoll view po) where
  -- The first `m` bytes of the buffer are those that were taken from the source.
  abbrev pub IsTaken : List ℕ → ℕ → ℕ → List ℕ → R → Type 0
  IsTaken all n m buffer r =
      (m ≤ n) × (length buffer ≡ n) × (all ≡ take m buffer ++ view.contents r)

  -- A full buffer, or the part of it that was filled in time or up to the end.
  abbrev pub IsPolled : List ℕ → Bool → ℕ → Returned R → Type 0
  IsPolled all fails n (ok (complete m), (buffer, r)) = (m ≡ n) × IsTaken all n m buffer r
  IsPolled all fails n (ok (timeout m), (buffer, r)) = IsTaken all n m buffer r
  IsPolled all fails n (ok (end_of_file m), (buffer, r)) =
      IsTaken all n m buffer r × (m < n → view.contents r ≡ [])
  IsPolled all fails n (err, (buffer, r)) = (fails ≡ true) × (length buffer ≡ n)
  IsPolled all fails n (panic, (buffer, r)) = ⊥
  IsPolled all fails n (out_of_fuel, (buffer, r)) = ⊥

  -- In the loop: `m` bytes are written.
  abbrev Ok : List ℕ → Bool → ℕ → List ℕ → List ℕ → ℕ → R → Type 0
  Ok all fails n done rest m r =
      (length done + length rest ≡ n)
      × (all ≡ done ++ view.contents r)
      × (view.fails r ≡ fails)
      × (m ≡ length done)

  taken :
      (all : List ℕ) (fails : Bool) (n : ℕ) (done rest : List ℕ) (m : ℕ) (r : R)
      → Ok all fails n done rest m r
      → IsTaken all n m (done ++ rest) r
  taken all fails n done rest m r (size, e, f, count) = (
    omega (arith, size, count),
    length-append done rest ∙ size,
    e
        ∙ ap (λ t. t ++ view.contents r)
            (sym (ap (λ k. take k (done ++ rest)) count ∙ take-append done rest)),
  )

  waited :
      (all : List ℕ) (fails : Bool) (n : ℕ) (done rest : List ℕ) (m : ℕ) (r r' : R)
      → Ok all fails n done rest m r
      → Waits view r r'
      → Ok all fails n done rest m r'
  waited all fails n done rest m r r' (size, e, f, count) (c, i, g) =
      (size, rw (sym c) e, g ∙ f, count)

  end_round-IsPolled :
      (all : List ℕ) (fails : Bool) (n : ℕ) (r : R) (done rest : List ℕ) (m : ℕ)
      (go_on : R → Returned R)
      → Ok all fails n done rest m r
      → ((r' : R) → Waits view r r' → IsPolled all fails n (go_on r'))
      → IsPolled all fails n (end_round go_on r done rest m)
  unfolding end_round
  end_round-IsPolled all fails n r done [] m go_on (size, e, f, count) k = (
    omega (arith, size, count),
    subst (λ buffer. IsTaken all n m buffer r) (append-nil done)
        (taken all fails n done [] m r (size, e, f, count)),
  )
  end_round-IsPolled all fails n r done (x ∷ rest) m go_on h k =
      let late = poll.waits r in
      elim (Bool-cases (po.is_late r).0) [
        | inl e ↦ rw e (
            taken all fails n done (x ∷ rest) m (po.is_late r).1
              (waited all fails n done (x ∷ rest) m r (po.is_late r).1 h late))
        | inr e ↦ rw e (k (po.is_late r).1 late)
      ]

  receive-IsPolled :
      (all : List ℕ) (fails : Bool) (n : ℕ) (r : R) (done rest : List ℕ) (m : ℕ)
      (got_in : Received × R) (go_on : R → List ℕ → List ℕ → ℕ → Returned R)
      → Ok all fails n done rest m r
      → Reads view r (length rest) got_in
      → ((r' : R) (done' rest' : List ℕ) (k : ℕ)
          → Ok all fails n done' rest' (m + k) r'
          → length rest' + view.interruptions r' < length rest + view.interruptions r
          → IsPolled all fails n (go_on r' done' rest' k))
      → IsPolled all fails n (receive (end_of_file m) got_in done rest go_on)
  unfolding receive
  receive-IsPolled all fails n r done rest m (got [], r') go_on (size, e, f, count) (c, l, i, g, h)
        k =
      (
        taken all fails n done rest m r' (size, rw (sym c) e, g ∙ f, count),
        λ less. sym c ∙ h refl (omega (arith, size, count)),
      )
  receive-IsPolled all fails n r done rest m (got (b ∷ bs), r') go_on (size, e, f, count)
        (c, l, i, g, h) k =
      let fits : ltb (length rest) (length (b ∷ bs)) ≡ false = ground (arith, l) in
      let dropped = length-drop (length (b ∷ bs)) rest in
      let longer = length-append done (b ∷ bs) in
      rw fits (
        k r' (done ++ (b ∷ bs)) (drop (length (b ∷ bs)) rest) (length (b ∷ bs))
          (
            omega (arith, size, l, dropped, longer),
            e ∙ ap (λ t. done ++ t) c ∙ sym (append_assoc done (b ∷ bs) (view.contents r')),
            g ∙ f,
            omega (arith, count, longer),
          )
          (omega (arith, dropped, l, i)))
  receive-IsPolled all fails n r done rest m (interrupted, r') go_on (size, e, f, count) (c, i, g)
        k =
      k r' done rest 0 (size, rw (sym c) e, g ∙ f, omega (arith, count)) (omega arith)
  receive-IsPolled all fails n r done rest m (failed, r') go_on (size, e, f, count) h k =
      (sym f ∙ h, length-append done rest ∙ size)

  when_polled-IsPolled :
      (all : List ℕ) (fails : Bool) (n : ℕ) (r : R) (done rest : List ℕ) (m : ℕ)
      (polled : Polled × R) (go_on : R → Returned R)
      → Ok all fails n done rest m r
      → Polls view r polled
      → ((r' : R) → Waits view r r' → IsPolled all fails n (go_on r'))
      → IsPolled all fails n (when_polled polled done rest m go_on)
  unfolding when_polled
  when_polled-IsPolled all fails n r done rest m (ready, r') go_on h p k = k r' p
  when_polled-IsPolled all fails n r done rest m (timed_out, r') go_on h p k =
      taken all fails n done rest m r' (waited all fails n done rest m r r' h p)
  when_polled-IsPolled all fails n r done rest m (poll_failed, r') go_on (size, e, f, count) p k =
      (sym f ∙ p, length-append done rest ∙ size)

  polling_loop-IsPolled :
      (fuel : ℕ) (all : List ℕ) (fails : Bool) (n : ℕ) (r : R) (done rest : List ℕ) (m : ℕ)
      → Ok all fails n done rest m r
      → length rest + view.interruptions r < fuel
      → IsPolled all fails n (polling_loop fuel r done rest m)
  unfolding polling_loop
  polling_loop-IsPolled zero all fails n r done rest m h enough = absurd (omega arith)
  polling_loop-IsPolled (suc fuel) all fails n r done rest m h enough =
      when_polled-IsPolled all fails n r done rest m (po.ppoll r) _ h (poll.polls r)
        (λ r₁ (c₁, i₁, g₁).
          receive-IsPolled all fails n r₁ done rest m (rd.read r₁ (length rest)) _
            (waited all fails n done rest m r r₁ h (c₁, i₁, g₁)) (stream.reads r₁ (length rest))
            (λ r₂ done' rest' k h₂ less.
              end_round-IsPolled all fails n r₂ done' rest' (m + k) _ h₂ (λ r₃ (c₃, i₃, g₃).
                polling_loop-IsPolled fuel all fails n r₃ done' rest' (m + k)
                  (waited all fails n done' rest' (m + k) r₂ r₃ h₂ (c₃, i₃, g₃))
                  (omega (arith, less, i₁, i₃, enough)))))

  -- For a source of bytes, polling that reads nothing, and a fuel above the buffer's length and the
  -- interruptions to come, the reader returns: the full buffer, or at a timeout or the end of the file
  -- the number of bytes at the front of the buffer. These are the next bytes of the source, which has
  -- those behind them left, and none at the end of file unless the buffer is full. Or it returns an
  -- error, if the source or its polling is one that fails.
  pub polling_read-IsPolled :
      (fuel : ℕ) (r : R) (buffer : List ℕ)
      → length buffer + view.interruptions r < fuel
      → IsPolled (view.contents r) (view.fails r) (length buffer) (polling_read fuel r buffer)
  unfolding polling_read
  polling_read-IsPolled fuel r buffer enough =
      polling_loop-IsPolled fuel (view.contents r) (view.fails r) (length buffer) r [] buffer 0
        (omega arith, refl, refl, refl) enough
