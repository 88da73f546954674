-- ===== src/Files/Tests.antt =====
-- The readers on a source of bytes in portions, and the theorems about them there.
use astra_camilla_dsp.Common.{ℕ, zero, suc, ◌≤◌, ◌≡◌, refl, Bool, true, false, List, [], ◌∷◌, map}
use astra_camilla_dsp.Common.{arith, Yields}
use astra_camilla_dsp.Files.{Read, Poll, Received, got, interrupted, ready, blocking_read}
use astra_camilla_dsp.Files.{polling_read, complete, ok, blocking_loop, receive}
use astra_camilla_dsp.Files.Stream.{View, IsStream, IsPoll, Reads}
use astra_camilla_dsp.Files.Blocking.{IsRead, blocking_read-IsRead}
use astra_camilla_dsp.Files.Polling.{IsPolled, polling_read-IsPolled}
use astra_camilla_dsp.Files.Limit.{capture_rounds}
use astra_camilla_dsp.Files.Capture.{capture_rounds-Within}
use astra_camilla_dsp.Files.Readers.{blocking, blocking-IsReader}

-- A pipe: the bytes to come and, before each of them, whether there is an interruption.
abbrev Pipe : Type 0
Pipe = List (Bool × ℕ)

-- One byte at a time.
abbrev give : Pipe → ℕ → Received × Pipe
give p zero = (got [], p)
give [] (suc n) = (got [], [])
give ((false, b) ∷ p) (suc n) = (got (b ∷ []), p)
give ((true, b) ∷ p) (suc n) = (interrupted, (false, b) ∷ p)

instance abbrev pipe : Read Pipe
pipe = record { read = give }

instance abbrev always : Poll Pipe
always = record { ppoll = λ p. (ready, p); is_late = λ p. (false, p) }

abbrev count_interruptions : Pipe → ℕ
count_interruptions [] = 0
count_interruptions ((true, b) ∷ p) = suc (count_interruptions p)
count_interruptions ((false, b) ∷ p) = count_interruptions p

abbrev view : View Pipe
view = record {
  contents = map (λ (x : Bool × ℕ). x.1);
  interruptions = count_interruptions;
  fails = λ p. false;
}

give-Reads : (p : Pipe) (n : ℕ) → Reads view p n (give p n)
give-Reads p zero = (refl, omega arith, omega arith, refl, λ e k. absurd (omega arith))
give-Reads [] (suc n) = (refl, omega arith, omega arith, refl, λ e k. refl)
give-Reads ((false, b) ∷ p) (suc n) = (refl, omega arith, omega arith, refl, λ e k. cc)
give-Reads ((true, b) ∷ p) (suc n) = (refl, omega arith, refl)

pipe-IsStream : IsStream view pipe
pipe-IsStream = record { reads = give-Reads }

always-IsPoll : IsPoll view always
always-IsPoll = record {
  polls = λ p. (refl, omega arith, refl);
  waits = λ p. (refl, omega arith, refl);
}

abbrev three : Pipe
three = (false, 5) ∷ (true, 6) ∷ (false, 7) ∷ []

blocking_read-three :
    blocking_read 6 three (0 ∷ 0 ∷ []) ≡ (ok (complete 2), (5 ∷ 6 ∷ [], (false, 7) ∷ []))
unfolding blocking_read blocking_loop receive
blocking_read-three = refl

blocking_read-IsRead_example :
    IsRead pipe-IsStream (5 ∷ 6 ∷ 7 ∷ []) false 4 (blocking_read 6 three (0 ∷ 0 ∷ 0 ∷ 0 ∷ []))
blocking_read-IsRead_example =
    blocking_read-IsRead pipe-IsStream 6 three (0 ∷ 0 ∷ 0 ∷ 0 ∷ []) (omega arith)

polling_read-IsPolled_example :
    IsPolled pipe-IsStream always-IsPoll
      (5 ∷ 6 ∷ 7 ∷ [])
      false
      4
      (polling_read 6 three (0 ∷ 0 ∷ 0 ∷ 0 ∷ []))
polling_read-IsPolled_example =
    polling_read-IsPolled pipe-IsStream always-IsPoll 6 three (0 ∷ 0 ∷ 0 ∷ 0 ∷ []) (omega arith)

-- The limit is reached in the second round, and the third one ends the loop.
capture_rounds-Within_example :
    Yields
      (λ out. (out.0).1 ≤ 2)
      (capture_rounds ⦃reader = blocking pipe-IsStream⦄ 2 0 (0 ∷ 0 ∷ []) three (1 ∷ 2 ∷ 1 ∷ []))
capture_rounds-Within_example =
    capture_rounds-Within ⦃reader = blocking pipe-IsStream⦄ (blocking-IsReader pipe-IsStream) 2 0
      (0 ∷ 0 ∷ []) three (1 ∷ 2 ∷ 1 ∷ []) (omega arith) (omega arith)
      (omega arith, (omega arith, (omega arith, tt)))
