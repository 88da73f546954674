-- ===== src/Counters/History.antt =====
-- utils/countertimer.rs: `ValueHistory`, the records of the signal levels, newest first.
use astra_camilla_dsp.Common.{ℕ, zero, suc, ◌+◌, ◌≤◌, ◌<◌, min, ◌≡◌, refl, sym, ap, ap₂, ◌∙◌, inl}
use astra_camilla_dsp.Common.{inr, Option, none, some, List, [], ◌∷◌, map, arith, ◌==◌}
use astra_camilla_dsp.Common.{if◌then◌else◌, Bool-cases, length, get_elem?, take, replicate}
use astra_camilla_dsp.Common.{resize, All, length-replicate, length-map, length-resize, take-take}
use astra_camilla_dsp.Common.{◌>>=◌, Yields}
use astra_camilla_dsp.Arith.{Arith, ◌⊗◌, nought}

pub record HistoryRecord (R : Type 0) : Type 0 where
  pub time : ℕ
  pub values : List R

pub record ValueHistory (R : Type 0) : Type 0 where
  pub buffer : List (HistoryRecord R)
  pub peak : List R
  pub nbr_values : ℕ
  pub history_length : ℕ
  pub valid_records : ℕ

-- `pop_back` of a deque: its last element, and the rest.
pub pop_back {ℓ} : {A : Type ℓ} → List A → Option (A × List A)
pop_back [] = none
pop_back (x ∷ []) = some (x, [])
pop_back (x ∷ y ∷ xs) = do last ← pop_back (y ∷ xs); some (last.0, x ∷ last.1)

abbrev stamped : {R : Type 0} → ℕ → List R → HistoryRecord R
stamped time values = record { time = time; values = values }

module _ {R : Type 0} ⦃r : Arith R⦄ where
  unfoldable pub reset_storage : ValueHistory R → ℕ → ℕ → ValueHistory R
  reset_storage h nbr_values now = record {
    buffer =
        replicate h.history_length (record { time = now; values = replicate nbr_values nought });
    peak = map (λ _. nought) (resize nbr_values nought h.peak);
    nbr_values = nbr_values;
    history_length = h.history_length;
    valid_records = 0;
  }

  unfoldable pub new : ℕ → ℕ → ℕ → ValueHistory R
  new history_length nbr_values now =
      reset_storage
        (record {
          buffer = [];
          peak = replicate nbr_values nought;
          nbr_values = nbr_values;
          history_length = history_length;
          valid_records = 0;
        })
        nbr_values now

  -- The loop over slots, maxima and values: `f` is the identity, or squares.
  pub store_values : (R → R) → List R → List R → List R → List R × List R
  store_values f [] peak values = ([], peak)
  store_values f (slot ∷ slots) [] values = (slot ∷ slots, [])
  store_values f (slot ∷ slots) (top ∷ peak) [] = (slot ∷ slots, top ∷ peak)
  store_values f (slot ∷ slots) (top ∷ peak) (value ∷ values) =
      let rest = store_values f slots peak values in
      (f value ∷ rest.0, (if r.lt top (f value) then f value else top) ∷ rest.1)

  -- `add_record` behind the check of the number of values; popping an empty buffer panics.
  pub push_record : (R → R) → ValueHistory R → List R → ℕ → Option (ValueHistory R)
  push_record f h values now = do
    last ← pop_back h.buffer
    let stored = store_values f (last.0).values h.peak values
    some (record h {
      buffer = record { time = now; values = stored.0 } ∷ last.1;
      peak = stored.1;
      valid_records = min (h.valid_records + 1) h.history_length;
    })

  pub add_with : (R → R) → ValueHistory R → List R → ℕ → Option (ValueHistory R)
  add_with f h values now =
      if h.history_length == 0
      then some h
      else push_record f
          (if length values == h.nbr_values then h else reset_storage h (length values) now) values
          now

  unfoldable pub add_record : ValueHistory R → List R → ℕ → Option (ValueHistory R)
  add_record h values now = add_with (λ v. v) h values now

  unfoldable pub add_record_squared : ValueHistory R → List R → ℕ → Option (ValueHistory R)
  add_record_squared h values now = add_with (λ v. v ⊗ v) h values now

  unfoldable pub reset_global_max : ValueHistory R → ValueHistory R
  reset_global_max h = record h { peak = map (λ _. nought) h.peak }

  unfoldable pub clear_history : ValueHistory R → ValueHistory R
  clear_history h = record h { valid_records = 0; peak = map (λ _. nought) h.peak }

  unfoldable pub last_record : ValueHistory R → Option (HistoryRecord R)
  last_record h = if h.valid_records == 0 then none else get_elem? h.buffer 0

  -- The storage is allocated: a full buffer of records of the right size.
  pub record IsStored (h : ValueHistory R) : Type 0 where
    pub full : length h.buffer ≡ h.history_length
    pub sizes : All (λ (s : HistoryRecord R). length s.values ≡ h.nbr_values) h.buffer
    pub peaks : length h.peak ≡ h.nbr_values
    pub valid : h.valid_records ≤ h.history_length

  -- What a history stands for: its valid records, newest first.
  abbrev pub records : ValueHistory R → List (HistoryRecord R)
  records h = take h.valid_records h.buffer

  pop_back-some :
      {P : HistoryRecord R → Type 0} (xs : List (HistoryRecord R))
      → 0 < length xs
      → All P xs
      → Yields
          (λ last.
            P last.0
            × All P last.1
            × (length last.1 + 1 ≡ length xs)
            × ((k : ℕ) → k < length xs → take k last.1 ≡ take k xs))
          (pop_back xs)
  unfolding pop_back
  pop_back-some [] pos p = absurd (omega arith)
  pop_back-some (x ∷ []) pos p = ((x, []), refl, (p.0, tt, refl, λ k lt. one k lt))
    where
      one : (k : ℕ) → k < 1 → take k [] ≡ take k (x ∷ [])
      one zero lt = refl
      one (suc k) lt = absurd (omega arith)
  pop_back-some (x ∷ y ∷ xs) pos p =
      let (last, e, (q, qs, l, t)) = pop_back-some (y ∷ xs) (omega arith) p.1 in
      let same : (k : ℕ) → k < length (x ∷ y ∷ xs) → take k (x ∷ last.1) ≡ take k (x ∷ y ∷ xs) =
        λ k lt. go last.1 t k lt in
      rw e ((last.0, x ∷ last.1), refl, (q, (p.0, qs), omega (arith, l), same))
    where
      go :
          (front : List (HistoryRecord R))
          → ((k : ℕ) → k < length (y ∷ xs) → take k front ≡ take k (y ∷ xs))
          → (k : ℕ) → k < length (x ∷ y ∷ xs)
          → take k (x ∷ front) ≡ take k (x ∷ y ∷ xs)
      go front t zero lt = refl
      go front t (suc k) lt = ap (λ s. x ∷ s) (t k (omega arith))

  store_values_lem :
      (f : R → R) (slots peak values : List R)
      → length slots ≡ length values
      → length peak ≡ length values
      → ((store_values f slots peak values).0 ≡ map f values)
        × (length (store_values f slots peak values).1 ≡ length peak)
  unfolding store_values
  store_values_lem f [] peak [] l m = (refl, refl)
  store_values_lem f [] peak (v ∷ vs) l m = absurd (omega (arith, l))
  store_values_lem f (s ∷ ss) [] [] l m = absurd (omega (arith, l))
  store_values_lem f (s ∷ ss) [] (v ∷ vs) l m = absurd (omega (arith, m))
  store_values_lem f (s ∷ ss) (t ∷ ts) [] l m = absurd (omega (arith, l))
  store_values_lem f (s ∷ ss) (t ∷ ts) (v ∷ vs) l m =
      let (e, n) = store_values_lem f ss ts vs (omega (arith, l)) (omega (arith, m)) in
      (ap (λ k. f v ∷ k) e, ap suc n)

  push_view :
      (h : ValueHistory R) {s s' : HistoryRecord R} {front : List (HistoryRecord R)}
      → s.time ≡ s'.time
      → s.values ≡ s'.values
      → ((k : ℕ) → k < h.history_length → take k front ≡ take k h.buffer)
      → 0 < h.history_length
      → take (min (h.valid_records + 1) h.history_length) (s ∷ front)
        ≡ take h.history_length (s' ∷ records h)
  push_view h {s = s} {s' = s'} {front = front} at v t pos = go h.history_length t pos
    where
      go :
          (len : ℕ)
          → ((k : ℕ) → k < len → take k front ≡ take k h.buffer)
          → 0 < len
          → take (min (h.valid_records + 1) len) (s ∷ front) ≡ take len (s' ∷ records h)
      go zero t pos = absurd (omega arith)
      go (suc m) t pos =
          let e : min (h.valid_records + 1) (suc m) ≡ suc (min h.valid_records m) = omega arith in
          ap (λ k. take k (s ∷ front)) e
          ∙ ap₂ ◌∷◌ (ap₂ stamped at v)
              (t (min h.valid_records m) (omega arith) ∙ sym (take-take m h.valid_records h.buffer))

  push_record_lem :
      (f : R → R) (h : ValueHistory R) (values : List R) (now : ℕ)
      → IsStored h
      → 0 < h.history_length
      → length values ≡ h.nbr_values
      → Yields
          (λ h'.
            IsStored h'
            × (records h'
                ≡ take h.history_length (record { time = now; values = map f values } ∷ records h)))
          (push_record f h values now)
  unfolding push_record
  push_record_lem f h values now st pos same =
      let (last, e, (q, qs, l, t)) = pop_back-some h.buffer (omega (arith, st.full)) st.sizes in
      let (v, n) =
        store_values_lem f (last.0).values h.peak values (q ∙ sym same) (st.peaks ∙ sym same) in
      rw e (
        _,
        refl,
        (
          record {
            full = omega (arith, l, st.full);
            sizes = (ap length v ∙ length-map values f ∙ same, qs);
            peaks = n ∙ st.peaks;
            valid = omega arith;
          },
          push_view h refl v (λ k lt. t k (omega (arith, st.full))) pos,
        ),
      )

  All-replicate :
      (P : HistoryRecord R → Type 0) (n : ℕ) (s : HistoryRecord R) → P s → All P (replicate n s)
  All-replicate P zero s p = tt
  All-replicate P (suc n) s p = (p, All-replicate P n s p)

  pub reset_storage-IsStored :
      (h : ValueHistory R) (nbr_values now : ℕ) → IsStored (reset_storage h nbr_values now)
  unfolding reset_storage
  reset_storage-IsStored h nbr_values now = record {
    full = length-replicate h.history_length _;
    sizes = All-replicate _ h.history_length _ (length-replicate nbr_values nought);
    peaks = length-map _ (λ _. nought) ∙ length-resize nbr_values nought h.peak;
    valid = omega arith;
  }

  -- The records with the new one, before the oldest are dropped.
  abbrev pub added : (R → R) → ValueHistory R → List R → ℕ → List (HistoryRecord R)
  added f h values now =
      stamped now (map f values) ∷ (if length values == h.nbr_values then records h else [])

  -- What a history is to become when values are added.
  abbrev pub Adds : (R → R) → ValueHistory R → List R → ℕ → ValueHistory R → Type 0
  Adds f h values now h' = IsStored h' × (records h' ≡ take h.history_length (added f h values now))

  add_with-Adds :
      (f : R → R) (h : ValueHistory R) (values : List R) (now : ℕ)
      → IsStored h
      → Yields (Adds f h values now) (add_with f h values now)
  unfolding add_with reset_storage
  add_with-Adds f h values now st = elim (Bool-cases (h.history_length == 0)) [
    | inl none_kept ↦
        let len : h.history_length ≡ 0 = ground (arith, none_kept) in
        let valid : h.valid_records ≡ 0 = omega (arith, len, st.valid) in
        rw none_kept (
          h,
          refl,
          (st, ap (λ k. take k h.buffer) valid ∙ sym (ap (λ k. take k (added f h values now)) len)),
        )
    | inr kept ↦
        let pos : 0 < h.history_length = ground (arith, kept) in
        rw kept (elim (Bool-cases (length values == h.nbr_values)) [
          | inl same ↦ rw same (push_record_lem f h values now st pos (ground (arith, same)))
          | inr changed ↦
              let empty = reset_storage h (length values) now in
              rw changed (
                push_record_lem f empty values now (reset_storage-IsStored h (length values) now)
                  pos refl)
        ])
  ]

  -- A history whose storage is allocated takes values, and squared values, without a panic and keeps
  -- its storage allocated. Its records are then the new one in front of those before, as many as the
  -- length of the history allows; where the number of values changed, those before are dropped.
  pub add_record-Adds :
      (h : ValueHistory R) (values : List R) (now : ℕ)
      → IsStored h
      → Yields (Adds (λ v. v) h values now) (add_record h values now)
        × Yields (Adds (λ v. v ⊗ v) h values now) (add_record_squared h values now)
  unfolding add_record add_record_squared
  add_record-Adds h values now st =
      (add_with-Adds (λ v. v) h values now st, add_with-Adds (λ v. v ⊗ v) h values now st)
