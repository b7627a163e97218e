-- ===== src/Log/Lines.antt =====
-- code/log/log.cpp, `write`: the line that a message makes in the buffer.
use torch_server.Base.{
  ℕ, zero, suc, ◌+◌, ◌-◌, ◌^◌, Returns-then, ◌≤◌, ◌<◌, ◌≡◌, refl, sym, ◌∙◌, ap, subst, ℤ, pos,
  negsuc, Bytes, codes, [], ◌∷◌, ◌++◌, length, take, drop, take_all, append_assoc, length-append,
  length-drop, length-take, fault, out_of_bounds, Run, Returns, returns, Returns-map, Returns-bind,
  arith, le→leb, ltb-false, leb-false, ◌>>=◌,
}
use torch_server.Buffer.{
  Buffer, append, ensure_writable, has_written, writable_bytes, write_at, size_sub,
}
use torch_server.Buffer.Valid.{IsValid, unread, writable_lem, write_at-ok}
use torch_server.Buffer.Contents.{write-Appended, length-written}
use torch_server.Log.{Tm, stamp_of, level_text, append_log_level, snprintf, format_line}

-- `str` was written behind the unread bytes, in the same array.
pub record Filled (b : Buffer) (str : Bytes) (b' : Buffer) : Type 0 where
  pub valid : IsValid b'
  pub contents : unread b' ≡ unread b ++ str
  pub end : b'.write_pos ≡ b.write_pos + length str
  pub size : length b'.buffer ≡ length b.buffer
  pub start : b'.read_pos ≡ b.read_pos

Filled-trans :
    {b b' b'' : Buffer} (str str' : Bytes)
    → Filled b str b'
    → Filled b' str' b''
    → Filled b (str ++ str') b''
Filled-trans {b} str str' f g = record {
  valid = g.valid;
  contents = g.contents ∙ ap (λ s. s ++ str') f.contents ∙ append_assoc (unread b) str str';
  end = omega (arith, f.end, g.end, length-append str str');
  size = g.size ∙ f.size;
  start = g.start ∙ f.start;
}

written-Filled :
    (b : Buffer) (str after : Bytes)
    → IsValid b
    → length after + b.write_pos + length str ≡ length b.buffer
    → Filled b str (record {
      buffer = take b.write_pos b.buffer ++ (str ++ after);
      read_pos = b.read_pos;
      write_pos = b.write_pos + length str;
    })
written-Filled b str after v whole =
    let a = write-Appended b str after v (omega arith) whole in
    record {
      valid = a.valid;
      contents = a.contents;
      end = refl;
      size = omega (arith, length-written b.write_pos b.buffer str after v.inside);
      start = refl;
    }

-- `append` of what fits.
append-Filled :
    (b : Buffer) (str : Bytes)
    → IsValid b
    → b.write_pos + length str ≤ length b.buffer
    → Returns (Filled b str) (append str b)
unfolding append ensure_writable has_written
append-Filled b str v fits =
    let after = drop (b.write_pos + length str) b.buffer in
    rw
      (
        writable_lem v,
        ltb-false (length b.buffer - b.write_pos) (length str) (omega arith),
        writable_lem v,
        le→leb (length str) (length b.buffer - b.write_pos) (omega arith),
        write_at-ok b.buffer b.write_pos str fits,
      )
      (returns (
        written-Filled b str after v
          (omega (arith, length-drop (b.write_pos + length str) b.buffer))))

-- `snprintf` of what fits, with its terminator.
snprintf-Filled :
    (size : ℕ) (b : Buffer) (str : Bytes)
    → IsValid b
    → length str < size
    → b.write_pos + length str + 1 ≤ length b.buffer
    → Returns (λ (n, b'). Filled b str (has_written n b')) (snprintf size str b)
unfolding snprintf has_written
snprintf-Filled zero b str v short fits = absurd (omega arith)
snprintf-Filled (suc size) b str v short fits =
    let text = str ++ 0 ∷ [] in
    let len : length text ≡ length str + 1 = length-append str (0 ∷ []) in
    let after = drop (b.write_pos + length text) b.buffer in
    rw (take_all size str (omega arith), write_at-ok b.buffer b.write_pos text (omega (arith, len)))
      (returns (
        subst
          (λ s. Filled b str (record {
            buffer = take b.write_pos b.buffer ++ s;
            read_pos = b.read_pos;
            write_pos = b.write_pos + length str;
          }))
          (sym (append_assoc str (0 ∷ []) after))
          (written-Filled b str (0 ∷ after) v
            (omega (arith, len, length-drop (b.write_pos + length text) b.buffer)))))

-- `snprintf` of any text: it returns the whole length, and moves no position.
snprintf_cut :
    (size : ℕ) (b : Buffer) (text : Bytes)
    → IsValid b
    → b.write_pos + size ≤ length b.buffer
    → 0 < size
    → Returns
        (λ (m, b').
          (m ≡ length text) × (b'.write_pos ≡ b.write_pos) × (length b'.buffer ≡ length b.buffer))
        (snprintf size text b)
unfolding snprintf
snprintf_cut zero b text v room positive = absurd (omega arith)
snprintf_cut (suc size) b text v room positive =
    let kept = take size text ++ 0 ∷ [] in
    let len : length kept ≤ suc size =
      omega (arith, length-append (take size text) (0 ∷ []), length-take size text) in
    let after = drop (b.write_pos + length kept) b.buffer in
    rw (write_at-ok b.buffer b.write_pos kept (omega (arith, len))) (
      returns (
        refl,
        refl,
        omega (
          arith,
          len,
          length-written b.write_pos b.buffer kept after v.inside,
          length-drop (b.write_pos + length kept) b.buffer,
        ),
      ))

-- `append` where the buffer is written outside its array.
append_outside :
    (b : Buffer)
    → length b.buffer < b.write_pos
    → b.write_pos < 2 ^ 33
    → append (codes "\n" ++ 0 ∷ []) b ≡ fault out_of_bounds
unfolding append ensure_writable writable_bytes write_at
append_outside b outside small =
    let free : 2 ≤ size_sub (length b.buffer) b.write_pos = omega arith in
    rw
      (
        ltb-false (size_sub (length b.buffer) b.write_pos) 2 free,
        le→leb 2 (size_sub (length b.buffer) b.write_pos) free,
        leb-false (b.write_pos + 2) (length b.buffer) (omega arith),
      )
      refl

-- The whole line.
unfoldable pub line_of : Tm → ℤ → Bytes → Bytes
line_of t level text = ((stamp_of t ++ level_text level) ++ text) ++ codes "\n"

length-level_text : (level : ℤ) → length (level_text level) ≡ 9
unfolding level_text
length-level_text (negsuc n) = refl
length-level_text (pos n) = ground arith

abbrev line_end : Bytes
line_end = codes "\n" ++ 0 ∷ []

-- The stamp and the level are written, and whatever follows on the buffer.
head_then {κ} :
    (Goal : Run Buffer → Type κ) (t : Tm) (level : ℤ) (b : Buffer) (rest : Buffer → Run Buffer)
    → IsValid b
    → length (stamp_of t) < 128
    → b.write_pos + length (stamp_of t) + 10 ≤ length b.buffer
    → ((b₂ : Buffer) → Filled b (stamp_of t ++ level_text level) b₂ → Goal (rest b₂))
    → Goal (
        snprintf 128 (stamp_of t) b >>= λ (n, b₁).
        append_log_level level (has_written n b₁) >>= rest)
unfolding append_log_level
head_then Goal t level b rest v short room continue =
    let nine = length-level_text level in
    Returns-then Goal (snprintf-Filled 128 b (stamp_of t) v short (omega arith)) λ (n, b₁) f.
      Returns-then Goal
        (append-Filled (has_written n b₁) (level_text level) f.valid
          (omega (arith, nine, f.end, f.size)))
        λ b₂ g. continue b₂ (Filled-trans (stamp_of t) (level_text level) f g)

module _ (t : Tm) (level : ℤ) (text : Bytes) (b : Buffer) (v : IsValid b)
    (short : length (stamp_of t) < 128) where
  abbrev head : Bytes
  head = stamp_of t ++ level_text level

  length-head : length head ≡ length (stamp_of t) + 9
  length-head =
      omega (arith, length-append (stamp_of t) (level_text level), length-level_text level)

  pub format_line_fills :
      b.write_pos + length (stamp_of t) + 11 + length text ≤ length b.buffer
      → Returns (Filled b (line_of t level text ++ 0 ∷ [])) (format_line t level text b)
  unfolding format_line line_of
  format_line_fills room =
      let goal = Filled b (line_of t level text ++ 0 ∷ []) in
      head_then (Returns goal) t level b _ v short (omega arith) λ b₂ f.
        let free = writable_lem f.valid in
        Returns-bind
          (snprintf-Filled (writable_bytes b₂) b₂ text f.valid
            (omega (arith, free, f.end, f.size, length-head))
            (omega (arith, f.end, f.size, length-head)))
          λ (m, b₃) g.
            Returns-map
              (append-Filled (has_written m b₃) line_end g.valid
                (omega (arith, f.end, f.size, g.end, g.size, length-head)))
              λ b₄ h.
                subst (λ s. Filled b s b₄) (sym (append_assoc (head ++ text) (codes "\n") (0 ∷ [])))
                  (Filled-trans (head ++ text) line_end (Filled-trans head text f g) h)

  -- `vsnprintf` returns the length of the whole message, also where it was cut off: with a message
  -- that is longer than what is free, the end of the line is written outside the array.
  pub format_line_overflows :
      b.write_pos + length (stamp_of t) + 10 ≤ length b.buffer
      → length b.buffer < b.write_pos + length (stamp_of t) + 9 + length text
      → length text < 2 ^ 31
      → length b.buffer < 2 ^ 31
      → format_line t level text b ≡ fault out_of_bounds
  unfolding format_line has_written
  format_line_overflows room long small size =
      head_then (λ run. run ≡ fault out_of_bounds) t level b _ v short room
        λ b₂ f.
          let free = writable_lem f.valid in
          Returns-then (λ run. run ≡ fault out_of_bounds)
            (snprintf_cut (writable_bytes b₂) b₂ text f.valid (omega (arith, free, f.valid.inside))
              (omega (arith, free, f.end, f.size, length-head)))
            λ (m, b₃) (whole, same, kept).
              append_outside (has_written m b₃)
                (omega (arith, whole, same, kept, f.end, f.size, length-head))
                (omega (arith, whole, same, f.end, f.size, length-head))
