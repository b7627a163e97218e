-- ===== src/Http/Conn.antt =====
-- code/http/http_conn.cpp and http_conn.h: a connection, which reads requests, has them parsed and
-- answered, and writes the answers. What the system calls return is an argument.
pub mod Write
pub mod Identity
pub mod Page
pub mod Turn
pub mod Tests
use torch_server.Base.{
  ℕ, zero, suc, ◌+◌, ◌-◌, ◌%◌, ◌^◌, Bool, true, false, not, ◌&&◌, ◌||◌, Bytes, List, [], ◌∷◌, ◌++◌,
  length, take, drop, Option, some, none, Run, ok, fault, no_fuel, assert, ◌>>=◌, ◌>>◌, ltb, leb,
  ◌==◌, if◌then◌else◌, ℤ, pos, negsuc, to_int, is_some,
}
use torch_server.Buffer.{
  Buffer, Count, failed, count, ReadV, readable_bytes, size_sub, retrieve, retrieve_all, read_fd,
}
use torch_server.Buffer as ByteBuffer
use torch_server.Http.Verify.{Mysql}
use torch_server.Http.Request.{Request, Classifier, ParseResult, World, parse}
use torch_server.Http.Request as HttpRequest
use torch_server.Http.Response.{Files, Response, unmap_file}
use torch_server.Http.Response as HttpResponse
use torch_server.Http.Response.Make.{make_response}

-- A `struct iovec`, whose pointer goes into the write buffer or the mapped file.
pub record Iovec : Type 0 where
  pub base : ℕ
  pub len : ℕ

pub record Conn (Prob : Type 0) : Type 0 where
  pub fd : ℤ
  pub is_closed : Bool
  pub iov_cnt : ℕ
  pub iov_0 : Iovec
  pub iov_1 : Iovec
  pub read_buff : Buffer
  pub write_buff : Buffer
  pub request : Request Prob
  pub response : Response Prob

-- `> 10240` on an `int`.
unfoldable pub is_large : ℤ → Bool
is_large (pos n) = ltb 10240 n
is_large (negsuc n) = false

module _ {Prob : Type 0} where
  unfoldable pub bytes_to_write : Conn Prob → ℤ
  bytes_to_write c = to_int ((c.iov_0.len + c.iov_1.len) % 2 ^ 64)

  abbrev pub get_fd : Conn Prob → ℤ
  get_fd c = c.fd

  abbrev pub is_keep_alive : Conn Prob → Bool
  is_keep_alive c = HttpRequest.is_keep_alive c.request

  -- The constructor leaves the vectors and their count as they are in memory.
  unfoldable pub new : ℕ → Iovec → Iovec → Conn Prob
  new iov_cnt iov_0 iov_1 = record {
    fd = negsuc 0;
    is_closed = true;
    iov_cnt = iov_cnt;
    iov_0 = iov_0;
    iov_1 = iov_1;
    read_buff = ByteBuffer.init 65_535;
    write_buff = ByteBuffer.init 65_535;
    request = HttpRequest.new;
    response = HttpResponse.new;
  }

  unfoldable pub reset : Conn Prob → Conn Prob
  reset c = record c {
    write_buff = retrieve_all c.write_buff;
    read_buff = retrieve_all c.read_buff;
    is_closed = false;
    request = HttpRequest.init c.request;
  }

  -- The connection and the count of users, the 32 bits of an `int`.
  unfoldable pub init : ℕ → Conn Prob × ℕ → Run (Conn Prob × ℕ)
  init fd (c, user_cnt) = do
    assert (ltb 0 fd)
    ok (reset (record c { fd = pos fd }), (user_cnt + 1) % 2 ^ 32)

  unfoldable pub close_conn : Conn Prob × ℕ → Conn Prob × ℕ
  close_conn (c, user_cnt) =
      let c' = record c { response = unmap_file c.response } in
      if c.is_closed
      then (c', user_cnt)
      else (record c' { is_closed = true }, (user_cnt + (2 ^ 32 - 1)) % 2 ^ 32)

  -- The destructor.
  unfoldable pub destroy : Conn Prob × ℕ → Conn Prob × ℕ
  destroy (c, user_cnt) = close_conn (c, user_cnt)

  -- `read`: the calls of `readv` in order; returns the total and `errno`, which only a failed call
  -- sets.
  unfoldable pub read_loop : Bool → List ReadV → ℕ → ℕ → Conn Prob → Run (ℕ × ℕ × Conn Prob)
  read_loop et [] total errno c = fault no_fuel
  read_loop et (outcome ∷ later) total errno c = do
    (buff, len) ← read_fd outcome c.read_buff
    let c' = record c { read_buff = buff }
    elim len [
      | failed errno' ↦ ok (total, errno', c')
      | count n ↦
          if n == 0
          then ok (total, errno, c')
          else if et
          then read_loop et later (total + n) errno c'
          else ok (total + n, errno, c')
    ]

  unfoldable pub read : Bool → List ReadV → ℕ → Conn Prob → Run (ℕ × ℕ × Conn Prob)
  read et outcomes errno c = read_loop et outcomes 0 errno c

  -- The two vectors after `writev` took `len` bytes, which are not 0.
  unfoldable pub advance : ℕ → Conn Prob → Run (Conn Prob)
  advance len c =
      if ltb c.iov_0.len len
      then (let more = len - c.iov_0.len in
          let c' = record c {
            iov_1 = record { base = c.iov_1.base + more; len = size_sub c.iov_1.len more };
          } in
          ok (
            if c.iov_0.len == 0 then c' else record c' {
              write_buff = retrieve_all c.write_buff;
              iov_0 = record { base = c.iov_0.base; len = 0 };
            }))
      else (do
        buff ← retrieve len c.write_buff
        ok (record c {
          iov_0 = record { base = c.iov_0.base + len; len = c.iov_0.len - len };
          write_buff = buff;
        }))

  -- `write`: the calls of `writev` in order; returns the last result.
  unfoldable pub write : Bool → List Count → Conn Prob → Run (Count × Conn Prob)
  write et [] c = fault no_fuel
  write et (failed errno ∷ later) c = ok (failed errno, c)
  write et (count len ∷ later) c =
      if len == 0 || (c.iov_0.len + c.iov_1.len) % 2 ^ 64 == 0 then ok (count len, c) else (do
        c' ← advance len c
        if et || is_large (bytes_to_write c') then write et later c' else ok (count len, c'))

  -- The vectors for an answer that stands in the write buffer and, perhaps, in a mapped file.
  unfoldable pub set_vectors : Conn Prob → Conn Prob
  set_vectors c =
      let c' = record c {
        iov_0 = record { base = c.write_buff.read_pos; len = readable_bytes c.write_buff };
        iov_cnt = 1;
      } in
      let size = HttpResponse.file_len c.response in
      if ltb 0 size && is_some (HttpResponse.file c.response)
      then record c' { iov_1 = record { base = 0; len = size }; iov_cnt = 2 }
      else c'

module _ (sql : Mysql) (model : Classifier) (files : Files) (prob_text : model.Prob → Bytes)
    (src_dir : Bytes) where
  open model use {Prob}

  -- The answer to what `parse` returned.
  unfoldable pub answer : Bool → Option ℕ → Conn Prob → Run (Conn Prob)
  answer keep_alive code c = do
    resp ← HttpResponse.init src_dir c.request.path c.request.cls_probs keep_alive code c.response
    (resp', buff) ← make_response files prob_text resp c.write_buff
    ok (set_vectors (record c { response = resp'; write_buff = buff }))

  unfoldable pub process : Conn Prob → World sql model → Run (Bool × Conn Prob × World sql model)
  process c w = do
    (result, request, buff, w') ← parse sql model c.request c.read_buff w
    let c' = record c { request = request; read_buff = buff }
    elim result [
      | ParseResult.more ↦ ok (false, c', w')
      | ParseResult.done ↦
          answer (HttpRequest.is_keep_alive request) (some 200) c' >>= λ c''. ok (true, c'', w')
      | ParseResult.bad ↦ answer false none c' >>= λ c''. ok (true, c'', w')
    ]
