-- ===== src/Buffer/Tests.antt =====
-- Runs and instances of the buffer's theorems.
use torch_server.Base.{ℕ, ◌≡◌, refl, [], ◌∷◌, ◌++◌, ok, Returns, arith, inr, codes}
use torch_server.Buffer.{
  Buffer, delivered, count, failed, init, zeroed, readable_bytes, writable_bytes, prependable_bytes,
  read_at, write_at, retrieve, retrieve_until, retrieve_all, retrieve_all_to_str, has_written,
  resize, grow, move_to_front, make_space, ensure_writable, append, append_buffer, spill, read_fd,
  write_fd,
}
use torch_server.Buffer.Valid.{IsValid, unread}
use torch_server.Buffer.Contents.{Appended, append_adds}
use torch_server.Buffer.ReadFd.{read_fd_keeps, read_fd_loses, write_fd_removes}

-- "bc" is unread in an array of four bytes.
abbrev sample : Buffer
sample = record { buffer = codes "abcd"; read_pos = 1; write_pos = 3 }

sample-IsValid : IsValid sample
sample-IsValid = omega arith

abbrev all_of : ℕ
unfolding init zeroed readable_bytes writable_bytes prependable_bytes read_at write_at retrieve
    retrieve_until retrieve_all retrieve_all_to_str has_written resize grow move_to_front make_space
    ensure_writable append append_buffer spill
all_of = 0

append_moves :
    append (codes "xy") sample ≡ ok (record { buffer = codes "bcxy"; read_pos = 0; write_pos = 4 })
unfolding all_of
append_moves = refl

append_grows :
    append (codes "vwxyz") sample
    ≡ ok (record { buffer = codes "abcvwxyz" ++ 0 ∷ []; read_pos = 1; write_pos = 8 })
unfolding all_of
append_grows = refl

retrieve_runs : retrieve 1 sample ≡ ok (record sample { read_pos = 2 })
unfolding all_of
retrieve_runs = refl

append_adds_example : Returns (Appended sample (codes "vwxyz")) (append (codes "vwxyz") sample)
append_adds_example = append_adds sample sample-IsValid (codes "vwxyz") (omega arith)

abbrev blank : Buffer
blank = record { buffer = codes "abcd"; read_pos = 0; write_pos = 0 }

read_fd_keeps_example :
    Returns
      (λ (b', n). Appended blank (codes "123456") b' × (n ≡ count 6))
      (read_fd (delivered (codes "123456")) blank)
read_fd_keeps_example =
    read_fd_keeps blank (codes "123456") (omega arith) (omega arith) (omega arith) (inr refl)

abbrev half_full : Buffer
half_full = record { buffer = codes "abcd"; read_pos = 0; write_pos = 2 }

-- Five bytes arrive, the queue gains three, and the call reports five.
read_fd_loses_example :
    Returns
      (λ (b', n). Appended half_full (codes "123") b' × (n ≡ count 5))
      (read_fd (delivered (codes "12345")) half_full)
read_fd_loses_example =
    read_fd_loses half_full (codes "12345") (omega arith) (omega arith) (omega arith) (omega arith)
      (omega arith)

write_fd_removes_example :
    IsValid (write_fd (count 1) sample).0
    × (unread (write_fd (count 1) sample).0 ≡ codes "c")
    × ((errno : ℕ) → write_fd (failed errno) sample ≡ (sample, failed errno))
write_fd_removes_example = write_fd_removes sample 1 sample-IsValid (omega arith)
