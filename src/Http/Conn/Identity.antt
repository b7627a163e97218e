-- ===== src/Http/Conn/Identity.antt =====
-- code/http/http_conn.cpp: `read`, `write` and `process` leave the descriptor of a connection, and
-- whether it is closed.
use torch_server.Base.{
  ℕ, ◌+◌, ◌%◌, ◌^◌, ◌≡◌, refl, ◌∙◌, Bool, false, ◌||◌, ◌&&◌, List, [], ◌∷◌, Option, Safely, safe,
  broken, Safely-after, ◌⊎◌, some, none, Safely-bind, Safely-map, Safely-if, Bytes, ltb, ◌==◌,
  is_some, Bool-cases, inl, inr,
}
use torch_server.Buffer.{Count, ReadV, failed, count, read_fd, retrieve}
use torch_server.Http.Verify.{Mysql}
use torch_server.Http.Request.{Classifier, World, ParseResult, parse}
use torch_server.Http.Request as HttpRequest
use torch_server.Http.Response.{Files}
use torch_server.Http.Response as HttpResponse
use torch_server.Http.Response.Make.{make_response}
use torch_server.Http.Conn.{
  Conn, read_loop, read, advance, write, set_vectors, answer, process, is_large, bytes_to_write,
}

-- A call fails, or takes a count.
pub Count-cases : (len : Count) → ((errno : ℕ) × (len ≡ failed errno)) ⊎ ((n : ℕ) × (len ≡ count n))
Count-cases (failed errno) = inl (errno, refl)
Count-cases (count n) = inr (n, refl)

ParseResult-cases :
    (result : ParseResult)
    → (result ≡ ParseResult.more) ⊎ ((result ≡ ParseResult.done) ⊎ (result ≡ ParseResult.bad))
ParseResult-cases ParseResult.more = inl refl
ParseResult-cases ParseResult.done = inr (inl refl)
ParseResult-cases ParseResult.bad = inr (inr refl)

module _ {Prob : Type 0} where
  abbrev pub Same : Conn Prob → Conn Prob → Type 0
  Same c c' = (c'.fd ≡ c.fd) × (c'.is_closed ≡ c.is_closed)

  Same-trans : (c c' : Conn Prob) → Same c c' → (d : Conn Prob) → Same c' d → Same c d
  Same-trans c c' (p, q) d (p', q') = (p' ∙ p, q' ∙ q)

  read_loop-Same :
      (et : Bool) (outcomes : List ReadV) (total errno : ℕ) (c : Conn Prob)
      → Safely (λ (ret, errno', c'). Same c c') (read_loop et outcomes total errno c)
  unfolding read_loop
  read_loop-Same et [] total errno c = broken
  read_loop-Same et (outcome ∷ later) total errno c =
      Safely-after (read_fd outcome c.read_buff) λ (buff, len). elim (Count-cases len) [
        | inl (errno', e) ↦ rw e (safe (refl, refl))
        | inr (n, e) ↦ rw e (
            Safely-if (n == 0) (λ _. safe (refl, refl))
              λ _.
                Safely-if et
                  (λ _. read_loop-Same et later (total + n) errno (record c { read_buff = buff }))
                  λ _. safe (refl, refl))
      ]

  pub read-Same :
      (et : Bool) (outcomes : List ReadV) (errno : ℕ) (c : Conn Prob)
      → Safely (λ (ret, errno', c'). Same c c') (read et outcomes errno c)
  unfolding read
  read-Same et outcomes errno c = read_loop-Same et outcomes 0 errno c

  pub advance-Same : (n : ℕ) (c : Conn Prob) → Safely (Same c) (advance n c)
  unfolding advance
  advance-Same n c =
      Safely-if (ltb c.iov_0.len n)
        (λ _. safe (elim (Bool-cases (c.iov_0.len == 0)) [
          | inl e ↦ rw e (refl, refl)
          | inr e ↦ rw e (refl, refl)
        ]))
        λ _. Safely-after (retrieve n c.write_buff) λ buff. safe (refl, refl)

  pub write-Same :
      (et : Bool) (counts : List Count) (c : Conn Prob)
      → Safely (λ (ret, c'). Same c c') (write et counts c)
  unfolding write
  write-Same et [] c = broken
  write-Same et (failed errno ∷ later) c = safe (refl, refl)
  write-Same et (count len ∷ later) c =
      Safely-if (len == 0 || (c.iov_0.len + c.iov_1.len) % 2 ^ 64 == 0) (λ _. safe (refl, refl))
        λ _. Safely-bind (advance-Same len c) λ c' s.
          Safely-if (et || is_large (bytes_to_write c'))
            (λ _. Safely-map (write-Same et later c') λ (ret, d) s'. Same-trans c c' s d s')
            λ _. safe s

  set_vectors-Same : (c : Conn Prob) → Same c (set_vectors c)
  unfolding set_vectors
  set_vectors-Same c =
      elim (Bool-cases (ltb 0 c.response.mm_file_stat.size && is_some c.response.mm_file)) [
        | inl e ↦ rw e (refl, refl)
        | inr e ↦ rw e (refl, refl)
      ]

module _ (sql : Mysql) (model : Classifier) (files : Files) (prob_text : model.Prob → Bytes)
    (src_dir : Bytes) where
  open model use {Prob}

  answer-Same :
      (keep_alive : Bool) (code : Option ℕ) (c : Conn Prob)
      → Safely (Same c) (answer sql model files prob_text src_dir keep_alive code c)
  unfolding answer
  answer-Same keep_alive code c =
      Safely-after
        (HttpResponse.init src_dir c.request.path c.request.cls_probs keep_alive code c.response)
        λ resp. Safely-after (make_response files prob_text resp c.write_buff) λ (resp', buff).
          safe (set_vectors-Same (record c { response = resp'; write_buff = buff }))

  pub process-Same :
      (c : Conn Prob) (w : World sql model)
      → Safely (λ (done, c', w'). Same c c') (process sql model files prob_text src_dir c w)
  unfolding process
  process-Same c w =
      Safely-after (parse sql model c.request c.read_buff w) λ (result, request, buff, w').
        elim (ParseResult-cases result) [
          | inl e ↦ rw e (safe (refl, refl))
          | inr (inl e) ↦ rw e (
              Safely-bind
                (answer-Same (HttpRequest.is_keep_alive request) (some 200)
                  (record c { request = request; read_buff = buff }))
                λ c' s. safe s)
          | inr (inr e) ↦ rw e (
              Safely-bind
                (answer-Same false none (record c { request = request; read_buff = buff }))
                λ c' s. safe s)
        ]
