-- ===== src/Files/Stream.antt =====
-- What the readers of files rely on: a source of bytes as `std::io::Read` documents it, and polling
-- that does not read.
use astra_camilla_dsp.Common.{ℕ, ◌≤◌, ◌<◌, ◌≡◌, Bool, true, List, [], ◌++◌, length}
use astra_camilla_dsp.Files.{Read, Poll, Received, Polled, got, interrupted, failed, ready}
use astra_camilla_dsp.Files.{timed_out, poll_failed}

-- What is known of a source: the bytes to come, the interruptions to come, and whether it fails
-- at some time.
pub record View (R : Type 0) : Type 0 where
  pub contents : R → List ℕ
  pub interruptions : R → ℕ
  pub fails : R → Bool

module _ {R : Type 0} where
  -- No bytes are given only at the end, or into no space; each interruption is one of finitely many.
  abbrev pub Reads : View R → R → ℕ → Received × R → Type 0
  Reads view r n (got bs, r') =
      (view.contents r ≡ bs ++ view.contents r')
      × (length bs ≤ n)
      × (view.interruptions r' ≤ view.interruptions r)
      × (view.fails r' ≡ view.fails r)
      × (bs ≡ [] → 0 < n → view.contents r ≡ [])
  Reads view r n (interrupted, r') =
      (view.contents r ≡ view.contents r')
      × (view.interruptions r' < view.interruptions r)
      × (view.fails r' ≡ view.fails r)
  Reads view r n (failed, r') = view.fails r ≡ true

  -- A step that gives no bytes.
  abbrev pub Waits : View R → R → R → Type 0
  Waits view r r' =
      (view.contents r ≡ view.contents r')
      × (view.interruptions r' ≤ view.interruptions r)
      × (view.fails r' ≡ view.fails r)

  abbrev pub Polls : View R → R → Polled × R → Type 0
  Polls view r (ready, r') = Waits view r r'
  Polls view r (timed_out, r') = Waits view r r'
  Polls view r (poll_failed, r') = view.fails r ≡ true

pub record IsStream {R : Type 0} (view : View R) (rd : Read R) : Type 0 where
  pub reads : (r : R) (n : ℕ) → Reads view r n (rd.read r n)

pub record IsPoll {R : Type 0} (view : View R) (po : Poll R) : Type 0 where
  pub polls : (r : R) → Polls view r (po.ppoll r)
  pub waits : (r : R) → Waits view r (po.is_late r).1
