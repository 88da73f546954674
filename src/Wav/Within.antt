-- ===== src/Wav/Within.antt =====
-- utils/wavtools.rs: what the search finds stands in the file.
use astra_camilla_dsp.Common.{ℕ, zero, suc, ◌+◌, ◌/◌, ◌≡◌, refl, sym, ◌∙◌, subst, inl, inr, true}
use astra_camilla_dsp.Common.{◌&&◌, ◌||◌, not, some, arith, ◌==◌, ==_iff, Bool-cases, length}
use astra_camilla_dsp.Common.{drop}
use astra_camilla_dsp.Wav.Chunks.{HeaderAt, FmtBytes, FmtAt, DataAt, IsScan, read_exact-le}
use astra_camilla_dsp.Wav.Success.{and_left, and_right, if_ok-eq-ok, or_panic-bind-eq-ok}
use astra_camilla_dsp.Wav.Success.{>>=?-eq-ok, ok-eq, if_panic-eq-ok, if_err-eq-ok}
use astra_camilla_dsp.Wav.Success.{or_err-bind-eq-ok}
use astra_camilla_dsp.Wav.{Bytes, ok, read_u16, read_u32, compare_4cc, data_id, fmt_id}
use astra_camilla_dsp.Wav.{look_up_format, riff, wave}
use astra_camilla_dsp.Wav.Find.{WavParams, Scan, read_exact, read_fmt, read_chunk, scan_chunk}
use astra_camilla_dsp.Wav.Find.{goes_on, scan_chunks, is_fmt_length, start}
use astra_camilla_dsp.Wav.Find.{find_data_in_wav_stream}

-- A fmt chunk that is accepted gives what it holds, and leaves what is known of the data.
read_fmt-FmtBytes :
    (bytes : Bytes) (n : ℕ) (params : WavParams) {out : WavParams}
    → read_fmt bytes n params ≡ ok out
    → FmtBytes bytes n out
      × (out.data_offset ≡ params.data_offset)
      × (out.data_length ≡ params.data_length)
unfolding read_fmt
read_fmt-FmtBytes bytes n params {out = out} e =
    let (code, h₀, e₀) = or_panic-bind-eq-ok (read_u16 bytes 0) _ e in
    let (channels, h₁, e₁) = or_panic-bind-eq-ok (read_u16 bytes 2) _ e₀ in
    let (rate, h₂, e₂) = or_panic-bind-eq-ok (read_u32 bytes 4) _ e₁ in
    let (frame, h₃, e₃) = or_panic-bind-eq-ok (read_u16 bytes 12) _ e₂ in
    let (bits, h₄, e₄) = or_panic-bind-eq-ok (read_u16 bytes 14) _ e₃ in
    let (heard, e₅) = if_panic-eq-ok (channels == 0) _ e₄ in
    let (format, h₅, e₆) = >>=?-eq-ok (look_up_format bytes code bits (frame / channels) n) _ e₅ in
    subst
      (λ (o : WavParams).
        FmtBytes bytes n o
        × (o.data_offset ≡ params.data_offset)
        × (o.data_length ≡ params.data_length))
      (ok-eq e₆)
      (
        record {
          formatcode = code;
          bits = bits;
          bytes_per_frame = frame;
          has_code = h₀;
          has_channels = h₁;
          has_rate = h₂;
          has_frame = h₃;
          has_bits = h₄;
          some_channels = λ z. cc (heard, (==_iff channels 0).1 z);
          has_format = h₅;
        },
        refl,
        refl,
      )

FmtAt-data :
    {file : Bytes} {p : WavParams} (offset n : ℕ)
    → FmtAt file p
    → FmtAt file (record p { data_offset = offset; data_length = n })
FmtAt-data offset n f = record {
  position = f.position;
  chunk_length = f.chunk_length;
  header = f.header;
  bytes = f.bytes;
  is_read = f.is_read;
  is_fmt = record {
    formatcode = f.is_fmt.formatcode;
    bits = f.is_fmt.bits;
    bytes_per_frame = f.is_fmt.bytes_per_frame;
    has_code = f.is_fmt.has_code;
    has_channels = f.is_fmt.has_channels;
    has_rate = f.is_fmt.has_rate;
    has_frame = f.is_fmt.has_frame;
    has_bits = f.is_fmt.has_bits;
    some_channels = f.is_fmt.some_channels;
    has_format = f.is_fmt.has_format;
  };
}

DataAt-fmt :
    {file : Bytes} {p q : WavParams}
    → q.data_offset ≡ p.data_offset
    → q.data_length ≡ p.data_length
    → DataAt file p
    → DataAt file q
DataAt-fmt {file = file} {p = p} {q = q} e k d = record {
  position = d.position;
  header = subst (HeaderAt file data_id d.position) (sym k) d.header;
  is_behind = e ∙ d.is_behind;
  is_inside = rw e d.is_inside;
}

IsHeader : Bytes → ℕ → Bytes → ℕ → Type 0
IsHeader file position buffer n =
    (read_exact file position 8 ≡ some buffer) × (read_u32 buffer 4 ≡ some n)

-- Each branch of the loop's body keeps what is known of the chunks that were found.
read_chunk-IsScan :
    (file buffer : Bytes) (n : ℕ) (s : Scan) {t : Scan}
    → IsHeader file s.next_chunk_location buffer n
    → IsScan file s
    → read_chunk file buffer n s ≡ ok t
    → IsScan file t
unfolding IsHeader read_chunk
read_chunk-IsScan file buffer n s {t = t} h i e =
    elim (Bool-cases (compare_4cc buffer fmt_id && is_fmt_length n)) [
      | inl is_fmt ↦
          let (bytes, k, e₁) =
            or_panic-bind-eq-ok (read_exact file (s.next_chunk_location + 8) n) _
              (rw is_fmt at e) in
          let (params, k', e₂) = >>=?-eq-ok (read_fmt bytes n s.params) _ e₁ in
          let (f, off, len) = read_fmt-FmtBytes bytes n s.params k' in
          let is : compare_4cc buffer fmt_id ≡ true = and_left _ _ is_fmt in
          subst (IsScan file) (ok-eq e₂) (
            (λ _. record {
              position = s.next_chunk_location;
              chunk_length = n;
              header = record { buffer = buffer; is_read = h.0; has_id = is; has_length = h.1 };
              bytes = bytes;
              is_read = k;
              is_fmt = f;
            }),
            λ d. DataAt-fmt off len (i.1 d),
          )
      | inr no_fmt ↦
          let e₁ = rw no_fmt at e in
          elim (Bool-cases (compare_4cc buffer data_id)) [
            | inl is_data ↦ subst (IsScan file) (ok-eq (rw is_data at e₁)) (
              (λ f. FmtAt-data (s.next_chunk_location + 8) n (i.0 f)),
              λ _. record {
                position = s.next_chunk_location;
                header = record {
                  buffer = buffer;
                  is_read = h.0;
                  has_id = is_data;
                  has_length = h.1;
                };
                is_behind = refl;
                is_inside = read_exact-le file s.next_chunk_location 8 (omega arith) h.0;
              },
            )
            | inr no_data ↦ subst (IsScan file) (ok-eq (rw no_data at e₁)) i
          ]
    ]

scan_chunk-IsScan :
    (file : Bytes) (s : Scan) {t : Scan} → IsScan file s → scan_chunk file s ≡ ok t → IsScan file t
unfolding scan_chunk IsHeader
scan_chunk-IsScan file s i e =
    let (buffer, k, e₁) = or_err-bind-eq-ok _ (read_exact file s.next_chunk_location 8) _ e in
    let (n, k', e₂) = or_panic-bind-eq-ok (read_u32 buffer 4) _ e₁ in
    let (t, h, e₃) = >>=?-eq-ok (read_chunk file buffer n s) _ e₂ in
    subst (IsScan file) (ok-eq e₃) (read_chunk-IsScan file buffer n s (k, k') i h)

scan_chunks-IsScan :
    (fuel : ℕ) (file : Bytes) (s : Scan) {t : Scan}
    → IsScan file s
    → scan_chunks fuel file s ≡ ok t
    → IsScan file t
unfolding scan_chunks
scan_chunks-IsScan zero file s i e = elim (Bool-cases (goes_on file s)) [
  | inl on ↦ cc (rw (scan_chunks, on) at e)
  | inr off ↦ subst (IsScan file) (ok-eq (rw (scan_chunks, off) at e)) i
]
scan_chunks-IsScan (suc fuel) file s i e = elim (Bool-cases (goes_on file s)) [
  | inl on ↦
      let (u, k, e₁) = >>=?-eq-ok (scan_chunk file s) _ (rw (scan_chunks, on) at e) in
      scan_chunks-IsScan fuel file u (scan_chunk-IsScan file s i k) e₁
  | inr off ↦ subst (IsScan file) (ok-eq (rw (scan_chunks, off) at e)) i
]

-- Parameters that are found were read from the file: its fmt chunk, behind a chunk header with that
-- id, holds the number of channels, which is not zero, the sample rate and the numbers that the
-- format is looked up with; and the data begins behind the header of a data chunk, inside the file.
pub find_data_in_wav_stream-Found :
    (file : Bytes) {p : WavParams}
    → find_data_in_wav_stream file ≡ ok p
    → FmtAt file p × DataAt file p
unfolding find_data_in_wav_stream
find_data_in_wav_stream-Found file {p = p} e =
    let (header, _, e₁) = or_err-bind-eq-ok _ (read_exact file 0 12) _ e in
    let (_, e₂) =
      if_err-eq-ok (not (compare_4cc header riff) || not (compare_4cc (drop 8 header) wave)) _ _
        e₁ in
    let (s, k, e₃) = >>=?-eq-ok (scan_chunks (length file / 8) file start) _ e₂ in
    let i = scan_chunks-IsScan (length file / 8) file start ((λ h. cc), λ h. cc) k in
    let (found, e₄) = if_ok-eq-ok (s.found_data && s.found_fmt) _ _ e₃ in
    subst (λ (o : WavParams). FmtAt file o × DataAt file o) e₄
      (i.0 (and_right _ _ found), i.1 (and_left _ _ found))
