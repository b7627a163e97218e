-- ===== src/Client/Overflow.antt =====
-- client/http_client.cpp, `send_request_`: an answer that is longer than the array.
use torch_server.Base.{
  ℕ, zero, suc, ◌+◌, ◌≤◌, ◌<◌, ◌≡◌, refl, pos, false, Bytes, List, [], ◌∷◌, ◌++◌, length,
  length-drop, ap, take, drop, map, fault, out_of_bounds, arith, ==-false, leb, Bool-cases, inl,
  inr,
}
use torch_server.Buffer.{ReadV, delivered, write_at, zeroed}
use torch_server.Buffer.Valid.{write_at-ok, length-zeroed}
use torch_server.Buffer.Contents.{length-written}
use torch_server.Client.{buffer_size, put_at, more_by, recv_loop, receive}

-- All pieces have at least one byte.
abbrev pub AreFull : List Bytes → Type 0
AreFull [] = Unit {0}
AreFull (s ∷ pieces) = (0 < length s) × AreFull pieces

abbrev pub total : List Bytes → ℕ
total [] = 0
total (s ∷ pieces) = length s + total pieces

more_by-pos : (n m : ℕ) → more_by n (pos m) ≡ pos (m + n)
unfolding more_by
more_by-pos zero m = ap pos (omega arith)
more_by-pos (suc n) m = refl

write_at_over :
    (offset : ℕ) (s buffer : Bytes)
    → leb (offset + length s) (length buffer) ≡ false
    → write_at buffer offset s ≡ fault out_of_bounds
unfolding write_at
write_at_over offset s buffer over = rw over refl

recv_loop_overflows :
    (pieces : List Bytes) (later : List ReadV) (offset : ℕ) (buffer : Bytes)
    → AreFull pieces
    → offset ≤ length buffer
    → length buffer < offset + total pieces
    → recv_loop (map delivered pieces ++ later) (pos offset) buffer ≡ fault out_of_bounds
unfolding recv_loop put_at
recv_loop_overflows [] later offset buffer full inside long = absurd (omega arith)
recv_loop_overflows (s ∷ pieces) later offset buffer (positive, full) inside long =
    elim (Bool-cases (leb (offset + length s) (length buffer))) [
      | inl fits ↦
          let room : offset + length s ≤ length buffer = ground (arith, fits) in
          let after = drop (offset + length s) buffer in
          let buffer' = take offset buffer ++ (s ++ after) in
          let size : length buffer' ≡ length buffer = omega (
            arith,
            length-written offset buffer s after inside,
            length-drop (offset + length s) buffer,
          ) in
          rw
            (
              ==-false (length s) 0 (omega arith),
              write_at-ok buffer offset s room,
              more_by-pos (length s) offset,
            )
            (recv_loop_overflows pieces later (offset + length s) buffer' full (omega (arith, size))
              (omega (arith, size)))
      | inr over ↦ rw (==-false (length s) 0 (omega arith), write_at_over offset s buffer over) refl
    ]

-- Where `recv` delivers pieces of at least one byte that are together longer than the array of 65535
-- bytes, the loop of the client writes outside of it, whatever follows.
pub receive_overflows :
    (pieces : List Bytes) (later : List ReadV)
    → AreFull pieces
    → 65_535 < total pieces
    → receive (map delivered pieces ++ later) ≡ fault out_of_bounds
unfolding receive
receive_overflows pieces later full long =
    let size = length-zeroed buffer_size in
    rw
      (recv_loop_overflows pieces later 0 (zeroed buffer_size) full (omega arith)
        (omega (arith, size)))
      refl
