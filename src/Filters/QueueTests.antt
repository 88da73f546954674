-- ===== src/Filters/QueueTests.antt =====
-- filters/basicfilters.rs: the delay on a ring buffer that is a list.
use astra_camilla_dsp.Common.{ℕ, ◌≡◌, refl, sym, ap, ◌∙◌, inl, inr, false, Option, none, some}
use astra_camilla_dsp.Common.{List, [], ◌∷◌, ◌++◌, map, arith, ltb, ◌==◌, if◌then◌else◌, lt→ltb}
use astra_camilla_dsp.Common.{Bool-cases, length, concat, Yields}
use astra_camilla_dsp.Arith.Whole.{ℤ, pos, whole}
use astra_camilla_dsp.Filters.Delay.{RingBuffer, new}
use astra_camilla_dsp.Filters.Delay.Fifo.{IsFifo, feed, new-feed}

-- A ring buffer: the samples, oldest first, and the capacity.
abbrev pub Queue : Type 0
Queue = List ℤ × ℕ

abbrev pub push_over : List ℤ → ℕ → ℤ → Option ℤ × Queue
push_over [] n v = if n == 0 then (some v, ([], n)) else (none, (v ∷ [], n))
push_over (x ∷ xs) n v =
    if ltb (length (x ∷ xs)) n
    then (none, ((x ∷ xs) ++ (v ∷ []), n))
    else (some x, (xs ++ (v ∷ []), n))

instance abbrev pub queue : RingBuffer ℤ Queue
queue = record {
  new = λ n. ([], n);
  try_push = λ q v. if ltb (length q.0) q.1 then (q.0 ++ (v ∷ []), q.1) else q;
  push_overwrite = λ q v. push_over q.0 q.1 v;
}

push_over-full :
    (x : ℤ) (xs : List ℤ) (n : ℕ) (v : ℤ)
    → length (x ∷ xs) ≡ n
    → push_over (x ∷ xs) n v ≡ (some x, (xs ++ (v ∷ []), n))
push_over-full x xs n v h =
    let full : ltb (length (x ∷ xs)) n ≡ false = ground (arith, h) in rw full refl

push_over-capacity : (xs : List ℤ) (n : ℕ) (v : ℤ) → (push_over xs n v).1.1 ≡ n
push_over-capacity [] n v = elim (Bool-cases (n == 0)) [ inl e ↦ rw e refl | inr e ↦ rw e refl ]
push_over-capacity (x ∷ xs) n v = elim (Bool-cases (ltb (length (x ∷ xs)) n)) [
  | inl e ↦ rw e refl
  | inr e ↦ rw e refl
]

pub queue-IsFifo : IsFifo queue
queue-IsFifo = record {
  contents = λ q. q.0;
  capacity = λ q. q.1;
  contents-new = λ n. refl;
  capacity-new = λ n. refl;
  capacity-try_push =
      λ q v. elim (Bool-cases (ltb (length q.0) q.1)) [ inl e ↦ rw e refl | inr e ↦ rw e refl ];
  contents-try_push = λ q v h. rw (lt→ltb (length q.0) q.1 h) refl;
  capacity-push_overwrite = λ q v. push_over-capacity q.0 q.1 v;
  popped = λ q v x xs e h.
      rw e (ap (λ (r : Option ℤ × Queue). r.0) (push_over-full x xs q.1 v (ap length (sym e) ∙ h)));
  contents-push_overwrite = λ q v x xs e h.
      rw e
        (ap (λ (r : Option ℤ × Queue). r.1.0) (push_over-full x xs q.1 v (ap length (sym e) ∙ h)));
}

abbrev waveforms : List (List ℤ)
waveforms = (pos 1 ∷ pos 2 ∷ pos 3 ∷ []) ∷ (pos 4 ∷ []) ∷ []

new-feed_example :
    Yields
      (λ r. (concat r.0 ≡ pos 0 ∷ pos 0 ∷ pos 1 ∷ pos 2 ∷ []) × (map length r.0 ≡ 3 ∷ 1 ∷ []))
      (feed queue-IsFifo (new 48000 (pos 2) false) waveforms)
new-feed_example = new-feed queue-IsFifo 48000 2 (pos 2) waveforms refl
