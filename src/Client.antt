-- ===== src/Client.antt =====
-- client/http_client.cpp: the client that the repository ships, the text that it sends and the
-- loop that receives the answer. The picture is what it reads from its file; what `recv` returns
-- is an argument.
pub mod Crash
pub mod Overflow
pub mod Tests
use torch_server.Base.{
  ℕ, zero, suc, ◌+◌, ◌≡◌, ℤ, pos, negsuc, Bytes, codes, List, [], ◌∷◌, ◌++◌, length, Run, ok, fault,
  out_of_bounds, no_fuel, ◌>>=◌, ◌==◌, if◌then◌else◌,
}
use torch_server.Buffer.{ReadV, refused, delivered, write_at, zeroed}

unfoldable pub get_request : Bytes → Bytes → Bytes → Bytes
get_request path host base64_img =
    codes "POST "
    ++ (path
        ++ (codes " HTTP/1.0\r\nHost: "
            ++ (host
                ++ (codes
                      "\r\nUser-Agent: Mozilla/5.0 (Windows; U; Windows NT 5.1; zh-CN; rv:1.9.2.3) Gecko/20100401 Firefox/3.6.3\r\n"
                    ++ (codes
                          "Content-Type: application/x-www-form-urlencoded\r\nConnection: close\r\n\r\nimg_str="
                        ++ base64_img)))))

-- `send_post`
unfoldable pub send_post : Bytes → Bytes → Bytes
send_post host base64_img = get_request (codes "/result") host base64_img

-- `char buffer_[65535]`
abbrev pub buffer_size : ℕ
buffer_size = 65_535

-- What is written at `buffer_ + offset`.
unfoldable pub put_at : ℤ → Bytes → Bytes → Run Bytes
put_at (pos offset) s buffer = write_at buffer offset s
put_at (negsuc n) s buffer = fault out_of_bounds

-- `offset - 1`
unfoldable pub one_less : ℤ → ℤ
one_less (pos zero) = negsuc 0
one_less (pos (suc n)) = pos n
one_less (negsuc n) = negsuc (suc n)

-- `offset + n`
unfoldable pub more_by : ℕ → ℤ → ℤ
more_by zero offset = offset
more_by (suc n) (pos m) = pos (m + suc n)
more_by (suc n) (negsuc zero) = more_by n (pos zero)
more_by (suc n) (negsuc (suc m)) = more_by n (negsuc m)

-- The calls of `recv` in order: a failed one returns -1, which is added and does not end the loop.
unfoldable pub recv_loop : List ReadV → ℤ → Bytes → Run (ℤ × Bytes)
recv_loop [] offset buffer = fault no_fuel
recv_loop (refused errno ∷ later) offset buffer = recv_loop later (one_less offset) buffer
recv_loop (delivered s ∷ later) offset buffer =
    if length s == 0
    then ok (offset, buffer)
    else (do buffer' ← put_at offset s buffer; recv_loop later (more_by (length s) offset) buffer')

-- `send_request_` behind its `send`: the array that is then printed.
unfoldable pub receive : List ReadV → Run Bytes
receive outcomes = do
  (offset, buffer) ← recv_loop outcomes (pos 0) (zeroed buffer_size)
  put_at offset (0 ∷ []) buffer
