-- ===== src/Files/Readers.antt =====
-- file_backend/device.rs and the readers: both readers keep to what the limit relies on.
use astra_camilla_dsp.Common.{ℕ, suc, ◌+◌, Bool, List, arith, length}
use astra_camilla_dsp.Files.{Read, Poll, Returned, ok, err, panic, out_of_fuel, complete, timeout}
use astra_camilla_dsp.Files.{end_of_file, blocking_read, polling_read}
use astra_camilla_dsp.Files.Stream.{View, IsStream, IsPoll}
use astra_camilla_dsp.Files.Blocking.{IsRead, blocking_read-IsRead}
use astra_camilla_dsp.Files.Polling.{IsPolled, polling_read-IsPolled}
use astra_camilla_dsp.Files.Limit.{Reader, bytes_of}
use astra_camilla_dsp.Files.Left.{IsReader, Honest}

module _ {R : Type 0} ⦃rd : Read R⦄ {view : View R} (stream : IsStream view rd) where
  -- The blocking reader, with enough fuel.
  abbrev pub blocking : Reader R
  blocking = record {
    read = λ r buffer. blocking_read (suc (length buffer + view.interruptions r)) r buffer;
  }

  read-Honest :
      (all : List ℕ) (fails : Bool) (size : ℕ) (result : Returned R)
      → IsRead stream all fails size result
      → Honest size result
  unfolding bytes_of
  read-Honest all fails size (ok (complete m), (buffer, r)) (e, l, c) = (omega (arith, e), l)
  read-Honest all fails size (ok (end_of_file m), (buffer, r)) (e, l, c, d) = (omega (arith, e), l)
  read-Honest all fails size (ok (timeout m), (buffer, r)) h = absurd h
  read-Honest all fails size (err, (buffer, r)) (h, l) = l
  read-Honest all fails size (panic, (buffer, r)) h = absurd h
  read-Honest all fails size (out_of_fuel, (buffer, r)) h = absurd h

  pub blocking-IsReader : IsReader blocking
  blocking-IsReader = record {
    honest = λ r buffer. read-Honest (view.contents r) (view.fails r) (length buffer) _ (
        blocking_read-IsRead stream (suc (length buffer + view.interruptions r)) r buffer
          (omega arith));
  }

  module _ ⦃po : Poll R⦄ (poll : IsPoll view po) where
    -- The polling reader, with enough fuel.
    abbrev pub polling : Reader R
    polling = record {
      read = λ r buffer. polling_read (suc (length buffer + view.interruptions r)) r buffer;
    }

    polled-Honest :
        (all : List ℕ) (fails : Bool) (size : ℕ) (result : Returned R)
        → IsPolled stream poll all fails size result
        → Honest size result
    unfolding bytes_of
    polled-Honest all fails size (ok (complete m), (buffer, r)) (e, (less, l, c)) = (less, l)
    polled-Honest all fails size (ok (end_of_file m), (buffer, r)) ((less, l, c), d) = (less, l)
    polled-Honest all fails size (ok (timeout m), (buffer, r)) (less, l, c) = (less, l)
    polled-Honest all fails size (err, (buffer, r)) (h, l) = l
    polled-Honest all fails size (panic, (buffer, r)) h = absurd h
    polled-Honest all fails size (out_of_fuel, (buffer, r)) h = absurd h

    pub polling-IsReader : IsReader polling
    polling-IsReader = record {
      honest = λ r buffer. polled-Honest (view.contents r) (view.fails r) (length buffer) _ (
          polling_read-IsPolled stream poll (suc (length buffer + view.interruptions r)) r buffer
            (omega arith));
    }
