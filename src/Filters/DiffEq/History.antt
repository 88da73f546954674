-- ===== src/Filters/DiffEq/History.antt =====
-- filters/diffeq.rs: the circular buffers hold the history of the filter, and its outputs are those
-- of the difference equation.
use astra_camilla_dsp.Common.{ℕ, zero, suc, ◌+◌, ◌-◌, ◌%◌, ◌≤◌, ◌<◌, ◌≡◌, refl, ◌∙◌, subst, some}
use astra_camilla_dsp.Common.{List, [], ◌∷◌, ◌++◌, append_assoc, arith, length, get_elem?, set}
use astra_camilla_dsp.Common.{drop, length-append, length-set, get_elem?-lt, get_elem?-append}
use astra_camilla_dsp.Common.{get_elem?-set_self, get_elem?-set_ne, Yields}
use astra_camilla_dsp.Arith.{Arith, ◌⊗◌, nought}
use astra_camilla_dsp.Filters.DiffEq.{DiffEq, taps, put, process_single}
use astra_camilla_dsp.Filters.DiffEq.Indices.{next-lt, newest-mod, older-mod, older-mod_ne}

module _ {S : Type 0} where
  -- A circular buffer of `len` cells, the newest at `idx`, holds the history `h`, newest first.
  pub record Holds (buffer : List S) (len idx : ℕ) (h : ℕ → S) : Type 0 where
    pub size : length buffer ≡ len
    pub here : idx < len
    pub held : (k : ℕ) → k < len → get_elem? buffer ((idx + len - k) % len) ≡ some (h k)

  abbrev pub push : S → (ℕ → S) → ℕ → S
  push v h zero = v
  push v h (suc k) = h k

  put-Holds :
      (buffer : List S) (len idx : ℕ) (h : ℕ → S) (v : S)
      → Holds buffer len idx h
      → Holds (set buffer ((idx + 1) % len) v) len ((idx + 1) % len) (push v h)
  put-Holds buffer len idx h v b = record {
    size = length-set buffer ((idx + 1) % len) v ∙ b.size;
    here = next-lt idx len b.here;
    held = λ k lt. go k lt;
  }
    where
      go :
          (k : ℕ)
          → k < len
          → get_elem? (set buffer ((idx + 1) % len) v) (((idx + 1) % len + len - k) % len)
            ≡ some (push v h k)
      go zero lt = rw (newest-mod idx len b.here) (
          get_elem?-set_self buffer ((idx + 1) % len) v
            (omega (arith, b.size, next-lt idx len b.here)))
      go (suc k) lt =
          rw (older-mod idx len k b.here lt)
            (get_elem?-set_ne buffer v (older-mod_ne idx len k b.here lt) ∙ b.held k (omega arith))

  -- The older cells, seen from the next index.
  before :
      (buffer : List S) (len idx : ℕ) (h : ℕ → S) (v : S)
      → Holds buffer len idx h
      → (k : ℕ) → 1 ≤ k
      → k < len
      → get_elem? buffer (((idx + 1) % len + len - k) % len) ≡ some (push v h k)
  before buffer len idx h v b zero le lt = absurd (omega arith)
  before buffer len idx h v b (suc k) le lt =
      rw (older-mod idx len k b.here lt) (b.held k (omega arith))

module _ {S : Type 0} ⦃r : Arith S⦄ where
  -- The coefficients with the history from its `k`-th value on, added up from `out`.
  abbrev pub weigh : (S → S → S) → List S → (ℕ → S) → ℕ → S → S
  weigh op [] h k out = out
  weigh op (c ∷ cs) h k out = weigh op cs h (k + 1) (op out (c ⊗ h k))

  -- The loop over the coefficients behind `prev` weighs the values from the index on that the newest
  -- cell and the history give.
  taps-weigh :
      (op : S → S → S) (prev cs : List S) (buffer : List S) (len idx : ℕ) (h : ℕ → S) (out : S)
      → ((k : ℕ)
          → length prev ≤ k
          → k < len
          → get_elem? buffer ((idx + len - k) % len) ≡ some (h k))
      → length prev + length cs ≡ len
      → taps op (prev ++ cs) buffer len idx (length cs) (length prev) out
        ≡ some (weigh op cs h (length prev) out)
  unfolding taps
  taps-weigh op prev [] buffer len idx h out held l = refl
  taps-weigh op prev (c ∷ cs) buffer len idx h out held l =
      let next : length (prev ++ (c ∷ [])) ≡ length prev + 1 = length-append prev (c ∷ []) in
      rw (get_elem?-append prev c cs, held (length prev) (omega arith) (omega arith))
        (let o = op out (c ⊗ h (length prev)) in
          let grown : List S = prev ++ (c ∷ []) in
          subst
            (λ n.
              taps op (prev ++ (c ∷ cs)) buffer len idx (length cs) n o ≡ some (weigh op cs h n o))
            next
            (subst
              (λ l.
                taps op l buffer len idx (length cs) (length grown) o
                ≡ some (weigh op cs h (length grown) o))
              (append_assoc prev (c ∷ []) cs)
              (taps-weigh op grown cs buffer len idx h o
                (λ k le lt. held k (omega (arith, next, le)) lt) (omega (arith, next, l)))))

  -- The loop that starts at the second coefficient.
  taps-weigh_tail :
      (op : S → S → S) (cs buffer : List S) (len idx : ℕ) (h : ℕ → S) (out : S)
      → ((k : ℕ) → 1 ≤ k → k < len → get_elem? buffer ((idx + len - k) % len) ≡ some (h k))
      → length cs ≡ len
      → 0 < len
      → taps op cs buffer len idx (len - 1) 1 out ≡ some (weigh op (drop 1 cs) h 1 out)
  taps-weigh_tail op [] buffer len idx h out held l pos = absurd (omega arith)
  taps-weigh_tail op (c ∷ cs) buffer len idx h out held l pos =
      let left : length cs ≡ len - 1 = omega (arith, l) in
      subst (λ n. taps op (c ∷ cs) buffer len idx n 1 out ≡ some (weigh op cs h 1 out)) left
        (taps-weigh op (c ∷ []) cs buffer len idx h out held (omega (arith, l)))

  -- The filter holds the histories `hx` of its inputs and `hy` of its outputs, newest first.
  pub record Remembers (f : DiffEq S) (hx hy : ℕ → S) : Type 0 where
    pub inputs : Holds f.x f.b_len f.idx_x hx
    pub outputs : Holds f.y f.a_len f.idx_y hy
    pub b_size : length f.b ≡ f.b_len
    pub a_size : length f.a ≡ f.a_len

  -- The difference equation: the sum of the `b` times the inputs from the new one on, less the `a`
  -- behind the first times the outputs before.
  abbrev pub equation : List S → List S → (ℕ → S) → (ℕ → S) → S → S
  equation a b hx hy x =
      weigh r.sub (drop 1 a) (push nought hy) 1 (weigh r.add b (push x hx) 0 nought)

  -- One sample, for a filter that remembers its history: it does not panic, puts out the value of the
  -- difference equation, and remembers the history with the new input and output.
  pub process_single-Remembers :
      (f : DiffEq S) (hx hy : ℕ → S) (x : S)
      → Remembers f hx hy
      → Yields
          (λ out.
            (out.0 ≡ equation f.a f.b hx hy x)
            × Remembers out.1 (push x hx) (push (equation f.a f.b hx hy x) hy)
            × ((out.1).a ≡ f.a)
            × ((out.1).b ≡ f.b))
          (process_single f x)
  unfolding process_single put
  process_single-Remembers f hx hy x m =
      let (ix, iy) : ℕ × ℕ = ((f.idx_x + 1) % f.b_len, (f.idx_y + 1) % f.a_len) in
      let ins = m.inputs in
      let outs = m.outputs in
      let xs = put-Holds f.x f.b_len f.idx_x hx x ins in
      let fed : S = weigh r.add f.b (push x hx) 0 nought in
      let value : S = equation f.a f.b hx hy x in
      let e : taps r.add f.b (set f.x ix x) f.b_len ix f.b_len 0 nought ≡ some fed =
        subst (λ n. taps r.add f.b (set f.x ix x) f.b_len ix n 0 nought ≡ some fed) m.b_size
          (taps-weigh r.add [] f.b (set f.x ix x) f.b_len ix (push x hx) nought
            (λ k _ lt. xs.held k lt) (omega (arith, m.b_size))) in
      let e' : taps r.sub f.a f.y f.a_len iy (f.a_len - 1) 1 fed ≡ some value =
        taps-weigh_tail r.sub f.a f.y f.a_len iy (push nought hy) fed
          (before f.y f.a_len f.idx_y hy nought outs) m.a_size (omega (arith, outs.here)) in
      let (_, there) = get_elem?-lt f.x ix (omega (arith, ins.size, xs.here)) in
      let (_, there') =
        get_elem?-lt f.y iy (omega (arith, outs.size, next-lt f.idx_y f.a_len outs.here)) in
      rw (there, e, e', there')
        (
          _,
          refl,
          (
            refl,
            record {
              inputs = xs;
              outputs = put-Holds f.y f.a_len f.idx_y hy value outs;
              b_size = m.b_size;
              a_size = m.a_size;
            },
            refl,
            refl,
          ),
        )
