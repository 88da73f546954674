-- ===== src/Wav/Terminates.antt =====
-- utils/wavtools.rs: the loop of `find_data_in_wav_stream` ends.
use astra_camilla_dsp.Common.{ℕ, zero, suc, ◌+◌, ◌*◌, ◌/◌, ◌≤◌, ◌<◌, ◌≡◌, refl, subst, ◌≢◌, inl}
use astra_camilla_dsp.Common.{inr, Bool, true, false, ◌&&◌, ◌||◌, not, Option, none, some, List}
use astra_camilla_dsp.Common.{[], ◌∷◌, arith, ◌==◌, if◌then◌else◌, Bool-cases, length, take, drop}
use astra_camilla_dsp.Wav.Success.{>>=?-eq-ok, ok-eq}
use astra_camilla_dsp.Config.Formats.{BinarySampleFormat}
use astra_camilla_dsp.Wav.{format_arms, extended_arms, riff, wave, Bytes, Outcome, ok, err, panic}
use astra_camilla_dsp.Wav.{out_of_fuel, ◌>>=?◌, or_panic, or_err, WavError, read_u16, read_u32}
use astra_camilla_dsp.Wav.{compare_4cc, first_match, from_slice, look_up_extended_format}
use astra_camilla_dsp.Wav.{look_up_format, data_id, fmt_id}
use astra_camilla_dsp.Wav.Find.{WavParams, Scan, read_exact, read_fmt, read_chunk, scan_chunk}
use astra_camilla_dsp.Wav.Find.{goes_on, scan_chunks, is_fmt_length, start}
use astra_camilla_dsp.Wav.Find.{find_data_in_wav_stream}

module _ {ℓ κ} {A : Type ℓ} {B : Type κ} where
  bind-ne-out_of_fuel :
      (m : Outcome A) (f : A → Outcome B)
      → m ≢ out_of_fuel
      → ((a : A) → m ≡ ok a → f a ≢ out_of_fuel)
      → (m >>=? f) ≢ out_of_fuel
  bind-ne-out_of_fuel (ok a) f h k = k a refl
  bind-ne-out_of_fuel (err e) f h k = λ p. cc
  bind-ne-out_of_fuel panic f h k = λ p. cc
  bind-ne-out_of_fuel out_of_fuel f h k = λ p. h refl

module _ {ℓ} {A : Type ℓ} where
  abbrev Ends : Outcome A → Type ℓ
  Ends o = o ≢ out_of_fuel

  or_panic-ne : (o : Option A) → or_panic o ≢ out_of_fuel
  or_panic-ne none = λ p. cc
  or_panic-ne (some a) = λ p. cc

  or_err-ne : (e : WavError) (o : Option A) → or_err e o ≢ out_of_fuel
  or_err-ne e none = λ p. cc
  or_err-ne e (some a) = λ p. cc

  ok-ne : {a : A} → Ends (ok a)
  ok-ne p = cc

  err-ne : {e : WavError} → Ends (err e)
  err-ne p = cc

  panic-ne : Ends panic
  panic-ne p = cc

  if-ne :
      (b : Bool) {x y : Outcome A}
      → x ≢ out_of_fuel
      → y ≢ out_of_fuel
      → (if b then x else y) ≢ out_of_fuel
  if-ne true h k = h
  if-ne false h k = k

panic-bind-ne {ℓ κ} :
    {A : Type ℓ} {B : Type κ} (o : Option A) (f : A → Outcome B)
    → ((a : A) → f a ≢ out_of_fuel)
    → (or_panic o >>=? f) ≢ out_of_fuel
panic-bind-ne o f k = bind-ne-out_of_fuel (or_panic o) f (or_panic-ne o) (λ a e. k a)

first_match-ne :
    (arms : List (Bool × BinarySampleFormat)) (rest : Outcome BinarySampleFormat)
    → rest ≢ out_of_fuel
    → first_match arms rest ≢ out_of_fuel
unfolding first_match
first_match-ne [] rest h = h
first_match-ne ((hit, format) ∷ arms) rest h = if-ne hit ok-ne (first_match-ne arms rest h)

look_up_extended_format-ne :
    (bytes : Bytes) (bits per_sample n : ℕ)
    → look_up_extended_format bytes bits per_sample n ≢ out_of_fuel
unfolding look_up_extended_format
look_up_extended_format-ne bytes bits per_sample n = if-ne (not (n == 40)) err-ne (
    panic-bind-ne (read_u16 bytes 16) _ λ cb. panic-bind-ne (read_u16 bytes 18) _ λ valid.
      panic-bind-ne (read_u32 bytes 20) _ λ mask.
        panic-bind-ne (from_slice (take 16 (drop 24 bytes))) _
          λ guid. first_match-ne (extended_arms guid bits per_sample valid) _ err-ne)

look_up_format-ne :
    (bytes : Bytes) (code bits per_sample n : ℕ)
    → look_up_format bytes code bits per_sample n ≢ out_of_fuel
unfolding look_up_format
look_up_format-ne bytes code bits per_sample n =
    first_match-ne (format_arms code bits per_sample) _
      (if-ne (code == 0xfffe) (look_up_extended_format-ne bytes bits per_sample n) err-ne)

read_fmt-ne : (bytes : Bytes) (n : ℕ) (params : WavParams) → read_fmt bytes n params ≢ out_of_fuel
unfolding read_fmt
read_fmt-ne bytes n params = panic-bind-ne (read_u16 bytes 0) _ λ code.
    panic-bind-ne (read_u16 bytes 2) _ λ channels. panic-bind-ne (read_u32 bytes 4) _ λ rate.
      panic-bind-ne (read_u16 bytes 12) _ λ frame. panic-bind-ne (read_u16 bytes 14) _ λ bits.
        if-ne (channels == 0) panic-ne (
          bind-ne-out_of_fuel (look_up_format bytes code bits (frame / channels) n) _
            (look_up_format-ne bytes code bits (frame / channels) n) (λ f e. ok-ne))

read_chunk-ne : (file buffer : Bytes) (n : ℕ) (s : Scan) → read_chunk file buffer n s ≢ out_of_fuel
unfolding read_chunk
read_chunk-ne file buffer n s =
    if-ne (compare_4cc buffer fmt_id && is_fmt_length n)
      (panic-bind-ne (read_exact file (s.next_chunk_location + 8) n) _ λ bytes.
        bind-ne-out_of_fuel (read_fmt bytes n s.params) _ (read_fmt-ne bytes n s.params)
          (λ params e. ok-ne))
      (if-ne (compare_4cc buffer data_id) ok-ne ok-ne)

scan_chunk-ne : (file : Bytes) (s : Scan) → scan_chunk file s ≢ out_of_fuel
unfolding scan_chunk
scan_chunk-ne file s =
    bind-ne-out_of_fuel _ _ (or_err-ne _ (read_exact file s.next_chunk_location 8)) λ buffer e.
      panic-bind-ne (read_u32 buffer 4) _ λ n.
        bind-ne-out_of_fuel (read_chunk file buffer n s) _ (read_chunk-ne file buffer n s)
          (λ t e'. ok-ne)

-- A round passes the header of a chunk.
pub scan_chunk-le :
    (file : Bytes) (s : Scan) {t : Scan}
    → scan_chunk file s ≡ ok t
    → s.next_chunk_location + 8 ≤ t.next_chunk_location
unfolding scan_chunk
scan_chunk-le file s e =
    let (buffer, _, e₁) = >>=?-eq-ok (or_err _ (read_exact file s.next_chunk_location 8)) _ e in
    let (n, _, e₂) = >>=?-eq-ok (or_panic (read_u32 buffer 4)) _ e₁ in
    let (t, _, e₃) = >>=?-eq-ok (read_chunk file buffer n s) _ e₂ in
    let far : s.next_chunk_location + 8 ≤ s.next_chunk_location + (8 + n) = omega arith in
    subst (λ (u : Scan). s.next_chunk_location + 8 ≤ u.next_chunk_location) (ok-eq e₃) far

pub goes_on-lt :
    (file : Bytes) (s : Scan) → goes_on file s ≡ true → s.next_chunk_location < length file
goes_on-lt file s e = ground arith

-- Fuel for the chunk headers that fit in the rest of the file is enough.
pub scan_chunks-ne :
    (fuel : ℕ) (file : Bytes) (s : Scan)
    → length file ≤ s.next_chunk_location + 8 * fuel
    → scan_chunks fuel file s ≢ out_of_fuel
unfolding scan_chunks
scan_chunks-ne zero file s h = elim (Bool-cases (goes_on file s)) [
  | inl e ↦ absurd (omega (arith, goes_on-lt file s e))
  | inr e ↦ rw (scan_chunks, e) ok-ne
]
scan_chunks-ne (suc fuel) file s h = elim (Bool-cases (goes_on file s)) [
  | inl e ↦
      rw (scan_chunks, e)
        (bind-ne-out_of_fuel (scan_chunk file s) _ (scan_chunk-ne file s)
          λ t k. scan_chunks-ne fuel file t (omega (arith, scan_chunk-le file s k)))
  | inr e ↦ rw (scan_chunks, e) ok-ne
]

-- Whatever the bytes of a file are, the search for the format and the data ends: the rounds that the
-- loop can make are no more than an eighth of the file's length.
pub find_data_in_wav_stream-ne-out_of_fuel :
    (file : Bytes) → find_data_in_wav_stream file ≢ out_of_fuel
unfolding find_data_in_wav_stream
find_data_in_wav_stream-ne-out_of_fuel file =
    let enough : length file ≤ 12 + 8 * (length file / 8) = omega arith in
    bind-ne-out_of_fuel _ _ (or_err-ne _ (read_exact file 0 12)) λ header e.
      if-ne (not (compare_4cc header riff) || not (compare_4cc (drop 8 header) wave)) err-ne (
        bind-ne-out_of_fuel (scan_chunks (length file / 8) file start) _
          (scan_chunks-ne (length file / 8) file start enough)
          (λ s e'. if-ne (s.found_data && s.found_fmt) ok-ne err-ne))
