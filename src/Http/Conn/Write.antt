-- ===== src/Http/Conn/Write.antt =====
-- code/http/http_conn.cpp, `write`: no byte of an answer is lost or sent twice.
use torch_server.Base.{
  pos, ℕ, zero, suc, ◌+◌, ◌-◌, ◌%◌, ◌^◌, ◌≤◌, ◌<◌, ◌≡◌, refl, ◌∙◌, sym, ap, subst, true, Bytes,
  List, [], ◌∷◌, ◌++◌, length, length-append, length-take, length-drop, take, drop, drop-drop,
  drop-take, drop-length-append, some, none, arith, Returns, returns, Returns-bind, Returns-map,
  le→leb, ltb, ◌==◌, ==-false, ==_iff, ◌⊎◌, inl, inr, ltb→lt, Bool-cases,
}
use torch_server.Buffer.{Count, failed, count, retrieve, size_sub}
use torch_server.Buffer.Valid.{IsValid, readable_lem}
use torch_server.Buffer.Taking.{retrieve_all-IsValid}
use torch_server.Http.Conn.{Conn, advance, write, bytes_to_write}

drop-append_left : (n : ℕ) (xs ys : Bytes) → n ≤ length xs → drop n (xs ++ ys) ≡ drop n xs ++ ys
drop-append_left zero xs ys h = refl
drop-append_left (suc n) [] ys h = absurd (omega arith)
drop-append_left (suc n) (x ∷ xs) ys h = drop-append_left n xs ys (omega arith)

-- The result that ends the loop.
abbrev pub Stops : Count → Type 0
Stops (failed errno) = Unit {0}
Stops (count n) = n ≡ 0

-- What `writev` can take: counts that are not 0 and that the vectors can serve.
abbrev pub AreTaken : List ℕ → ℕ → Type 0
AreTaken [] total = Unit {0}
AreTaken (n ∷ ns) total = (0 < n) × (n ≤ total) × AreTaken ns (total - n)

abbrev pub sum : List ℕ → ℕ
sum [] = 0
sum (n ∷ ns) = n + sum ns

abbrev pub then_stop : List ℕ → Count → List Count
then_stop [] stop = stop ∷ []
then_stop (n ∷ ns) stop = count n ∷ then_stop ns stop

module _ {Prob : Type 0} where
  -- The bytes of the mapped file.
  abbrev pub file : Conn Prob → Bytes
  file c = elim c.response.mm_file [ some mapped ↦ mapped | none ↦ [] ]

  abbrev first_part : Conn Prob → Bytes
  first_part c = take c.iov_0.len (drop c.iov_0.base c.write_buff.buffer)

  abbrev second_part : Conn Prob → Bytes
  second_part c = take c.iov_1.len (drop c.iov_1.base (file c))

  -- What the two vectors still have to send.
  abbrev pub pending : Conn Prob → Bytes
  pending c = first_part c ++ second_part c

  -- The first vector is what is unread in the write buffer, or used up; the second stays in the file.
  pub record IsReady (c : Conn Prob) : Type 0 where
    pub valid : IsValid c.write_buff
    pub first :
        (c.iov_0.len ≡ 0)
        ⊎ ((c.iov_0.base ≡ c.write_buff.read_pos)
            × (c.iov_0.len ≡ c.write_buff.write_pos - c.write_buff.read_pos))
    pub second : c.iov_1.base + c.iov_1.len ≤ length (file c)
    pub small : c.iov_0.len + c.iov_1.len < 2 ^ 31

  length-first_part : (c : Conn Prob) → IsReady c → length (first_part c) ≡ c.iov_0.len
  length-first_part c v = omega (
    arith,
    length-take c.iov_0.len (drop c.iov_0.base c.write_buff.buffer),
    length-drop c.iov_0.base c.write_buff.buffer,
    v.first,
    v.valid.ordered,
    v.valid.inside,
  )

  pub length-pending : (c : Conn Prob) → IsReady c → length (pending c) ≡ c.iov_0.len + c.iov_1.len
  length-pending c v = omega (
    arith,
    length-append (first_part c) (second_part c),
    length-first_part c v,
    length-take c.iov_1.len (drop c.iov_1.base (file c)),
    length-drop c.iov_1.base (file c),
    v.second,
  )

  -- What is left to send, where it is not more than an `int` holds.
  pub bytes_left : (c : Conn Prob) → IsReady c → bytes_to_write c ≡ pos (length (pending c))
  unfolding bytes_to_write
  bytes_left c v = ground (arith, length-pending c v, v.small)

  -- More bytes than the first vector has: what is left is an end of the second.
  past_first :
      (c : Conn Prob) (n : ℕ)
      → IsReady c
      → c.iov_0.len < n
      → n ≤ length (pending c)
      → take
          (size_sub c.iov_1.len (n - c.iov_0.len))
          (drop (c.iov_1.base + (n - c.iov_0.len)) (file c))
        ≡ drop n (pending c)
  past_first c n v past fits =
      let more = n - c.iov_0.len in
      let rest : size_sub c.iov_1.len more ≡ c.iov_1.len - more =
        omega (arith, length-pending c v, v.small) in
      let split : n ≡ c.iov_0.len + more = omega arith in
      sym (
        ap (λ k. drop k (pending c)) split
        ∙ sym (drop-drop more c.iov_0.len (pending c))
        ∙ ap (drop more) (
            drop-length-append c.iov_0.len (first_part c) (second_part c)
              (sym (length-first_part c v)))
        ∙ drop-take more c.iov_1.len (drop c.iov_1.base (file c))
        ∙ ap (take (c.iov_1.len - more)) (drop-drop more c.iov_1.base (file c))
        ∙ ap (λ k. take k (drop (c.iov_1.base + more) (file c))) (sym rest))

  -- The first vector still has bytes.
  within_first :
      (c : Conn Prob) (n : ℕ)
      → IsReady c
      → n ≤ c.iov_0.len
      → take (c.iov_0.len - n) (drop (c.iov_0.base + n) c.write_buff.buffer) ++ second_part c
        ≡ drop n (pending c)
  within_first c n v within = sym (
      drop-append_left n (first_part c) (second_part c) (omega (arith, length-first_part c v))
      ∙ ap (λ s. s ++ second_part c)
          (drop-take n c.iov_0.len (drop c.iov_0.base c.write_buff.buffer)
            ∙ ap (take (c.iov_0.len - n)) (drop-drop n c.iov_0.base c.write_buff.buffer)))

  no_first : (c : Conn Prob) → (c.iov_0.len == 0) ≡ true → first_part c ≡ []
  no_first c e =
      ap (λ k. take k (drop c.iov_0.base c.write_buff.buffer)) ((==_iff c.iov_0.len 0).0 e)

  started :
      (c : Conn Prob)
      → IsReady c
      → 0 < c.iov_0.len
      → (c.iov_0.base ≡ c.write_buff.read_pos)
        × (c.iov_0.len ≡ c.write_buff.write_pos - c.write_buff.read_pos)
  started c v some_left = elim v.first [ inl used ↦ absurd (omega arith) | inr whole ↦ whole ]

  past_len :
      (c : Conn Prob) (n : ℕ)
      → IsReady c
      → ltb c.iov_0.len n ≡ true
      → n ≤ length (pending c)
      → size_sub c.iov_1.len (n - c.iov_0.len) + (n - c.iov_0.len) ≡ c.iov_1.len
  past_len c n v past fits = omega (arith, length-pending c v, v.small, ltb→lt c.iov_0.len n past)

  pub advance_step :
      (c : Conn Prob) (n : ℕ)
      → IsReady c
      → 0 < n
      → n ≤ length (pending c)
      → Returns (λ c'. IsReady c' × (pending c' ≡ drop n (pending c))) (advance n c)
  unfolding advance retrieve
  advance_step c n v positive fits = elim (Bool-cases (ltb c.iov_0.len n)) [
    | inl past ↦ rw past (
        returns (elim (Bool-cases (c.iov_0.len == 0)) [
          | inl none_left ↦ rw none_left (
            record {
              valid = v.valid;
              first = v.first;
              second =
                  omega (arith, v.second, v.small, length-pending c v, past_len c n v past fits);
              small = omega (arith, v.small, past_len c n v past fits);
            },
            ap
                  (λ s.
                    s
                    ++ take (size_sub c.iov_1.len (n - c.iov_0.len))
                        (drop (c.iov_1.base + (n - c.iov_0.len)) (file c)))
                  (no_first c none_left)
                ∙ past_first c n v (ground (arith, past)) fits,
          )
          | inr some_left ↦ rw some_left (
            record {
              valid = retrieve_all-IsValid c.write_buff v.valid;
              first = inl refl;
              second =
                  omega (arith, v.second, v.small, length-pending c v, past_len c n v past fits);
              small = omega (arith, v.small, past_len c n v past fits);
            },
            past_first c n v (ground (arith, past)) fits,
          )
        ]))
    | inr within ↦
        rw
          (
            within,
            readable_lem v.valid,
            le→leb n (c.write_buff.write_pos - c.write_buff.read_pos)
                (ground (arith, v.first, within)),
          )
          (returns (
            record {
              valid = record {
                ordered = ground (arith, v.first, v.valid.ordered, within);
                inside = v.valid.inside;
                bounded = v.valid.bounded;
              };
              first = inr (
                ap (λ k. k + n) (started c v (ground (arith, within))).0,
                omega (arith, (started c v (ground (arith, within))).1),
              );
              second = v.second;
              small = omega (arith, v.small);
            },
            within_first c n v (ground (arith, within)),
          ))
  ]

  -- In edge-triggered mode, on a connection whose vectors hold an answer, `write` sends until
  -- `writev` fails or takes nothing. Where the earlier calls took `ns` bytes each, none of them 0
  -- and none more than was left, exactly the first `sum ns` bytes of the answer are gone, and the
  -- vectors hold the rest.
  pub write_sends :
      (ns : List ℕ) (stop : Count) (c : Conn Prob)
      → Stops stop
      → IsReady c
      → AreTaken ns (length (pending c))
      → Returns
          (λ (ret, c'). (ret ≡ stop) × IsReady c' × (pending c' ≡ drop (sum ns) (pending c)))
          (write true (then_stop ns stop) c)
  unfolding write
  write_sends [] (failed errno) c stops v taken = returns (refl, v, refl)
  write_sends [] (count n) c stops v taken = rw stops (returns (refl, v, refl))
  write_sends (n ∷ ns) stop c stops v taken =
      let (positive, fits, later) = taken in
      let total = length-pending c v in
      rw
        (
          ==-false n 0 (omega arith),
          ==-false ((c.iov_0.len + c.iov_1.len) % 2 ^ 64) 0 (omega (arith, total, v.small)),
        )
        (Returns-bind (advance_step c n v positive fits) λ c' (v', p).
          Returns-map
            (write_sends ns stop c' stops v'
              (subst (AreTaken ns) (sym (ap length p ∙ length-drop n (pending c))) later))
            λ (ret, c'') (same, v'', q).
              (same, v'', q ∙ ap (drop (sum ns)) p ∙ drop-drop (sum ns) n (pending c)))
