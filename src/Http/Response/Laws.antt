-- ===== src/Http/Response/Laws.antt =====
-- code/http/http_response.cpp, `make_response`: the whole answer for each kind of request.
use torch_server.Base.{
  ℕ, ◌+◌, ◌^◌, ◌<◌, ◌≡◌, refl, ◌∙◌, sym, ap, true, false, Bytes, codes, List, [], ◌∷◌, ◌++◌,
  append_assoc, append-nil, subst, length, length-append, Option, some, none, Run, ok, fault,
  uncaught, out_of_bounds, ◌>>=◌, arith, Returns, returns, Returns-bind, Returns-then, bytes_eq,
  ltb-false, take-length-append,
}
use torch_server.Buffer.{Buffer, size_sub}
use torch_server.Buffer.Valid.{IsValid, unread}
use torch_server.Http.Response.{
  FileStat, Files, Response, status_of, content_length, error_body, to_string, add_state_line,
  add_header,
}
use torch_server.Http.Response.Json.{
  are_digits, read_decimal, to_string-digits, is_text, are_blanks, IsNumber, member, IsMembers,
  IsObject,
}
use torch_server.Http.Response.Text.{
  HasPlace, Extended, append-Extended, Extended-chain, state_line, header_text,
  add_state_line-Extended, add_header-Extended, error_content-Extended,
}
use torch_server.Http.Response.Make.{
  erase, item, is_minus_one, items, result_json, make_result, choose_code, error_html, add_content,
  make_file, make_response,
}

erase-last :
    (s t : Bytes)
    → length t ≡ 2
    → length s + 2 < 2 ^ 64
    → erase (size_sub (length (s ++ t)) 2) (s ++ t) ≡ ok s
unfolding erase
erase-last s t two small =
    let total = length-append s t in
    let pos : size_sub (length (s ++ t)) 2 ≡ length s = omega (arith, total, two) in
    rw (
      pos,
      ltb-false (length (s ++ t)) (length s) (omega (arith, total)),
      take-length-append (length s) s t refl,
    )

module _ (files : Files) {Prob : Type 0} (prob_text : Prob → Bytes) where
  open files use {stat, open_file, mmap}

  -- The lines in front of the length.
  abbrev pub head : Response Prob → Bytes
  head r = state_line r.code ++ header_text r.is_keep_alive r.path

  head-Extended :
      {A : Type 0} (Goal : Run A → Type 0) (r : Response Prob) (b : Buffer) (n : ℕ)
      (next : Response Prob → Buffer → Run A)
      → HasPlace (length (head r) + n) b
      → ((b' : Buffer)
          → Extended b (head r) n b'
          → Goal (next (record r { code = some (status_of r.code).0 }) b'))
      → Goal (add_state_line r b >>= λ (r', b₁). add_header r' b₁ >>= next r')
  head-Extended Goal r b n next h go_on =
      let line = state_line r.code in
      let text = header_text r.is_keep_alive r.path in
      Returns-then Goal
        (add_state_line-Extended r b (length text + n)
          (record { valid = h.valid; place = omega (arith, h.place, length-append line text) }))
        λ (r', b₁) (e, p). rw e (
          Returns-then Goal
            (add_header-Extended (record r { code = some (status_of r.code).0 }) b₁ n p.left)
            λ b₂ q. go_on b₂ (Extended-chain p q))

  -- With a file that can be opened and mapped, and that does not begin with four bytes of 255, and
  -- with place for the head in a valid buffer, the file branch appends the head and the length of
  -- the file, keeps the mapping for the body, and leaves a valid buffer.
  pub make_file_sends :
      (r : Response Prob) (b : Buffer) (mapped : Bytes)
      → HasPlace (length (head r) + length (content_length r.mm_file_stat.size)) b
      → open_file (r.src_dir ++ r.path) ≡ true
      → mmap (r.src_dir ++ r.path) r.mm_file_stat.size ≡ some mapped
      → is_minus_one mapped ≡ false
      → Returns
          (λ (r', b').
            (r' ≡ record r { code = some (status_of r.code).0; mm_file = some mapped })
            × (unread b' ≡ unread b ++ (head r ++ content_length r.mm_file_stat.size))
            × IsValid b')
          (make_file files prob_text r b)
  unfolding make_file add_content
  make_file_sends r b mapped h opened mapped_eq plain =
      head-Extended (Returns _) r b (length (content_length r.mm_file_stat.size)) _ h λ b' p.
        rw (opened, mapped_eq, plain)
          (Returns-bind
            (append-Extended b' (content_length r.mm_file_stat.size) 0
              (record { valid = p.left.valid; place = omega (arith, p.left.place) }))
            λ b'' q. returns (refl, (Extended-chain p q).contents, q.left.valid))

  -- A file that cannot be opened, with place in a valid buffer, is answered by a page whose size the
  -- head announces, and nothing is mapped.
  pub make_file_missing :
      (r : Response Prob) (b : Buffer)
      → let body = error_body (some (status_of r.code).0) (codes "File NotFound!") in
        HasPlace (length (head r) + (length (content_length (length body)) + length body)) b
        → open_file (r.src_dir ++ r.path) ≡ false
        → Returns
            (λ (r', b').
              (r' ≡ record r { code = some (status_of r.code).0 })
              × (unread b' ≡ unread b ++ (head r ++ (content_length (length body) ++ body))))
            (make_file files prob_text r b)
  unfolding make_file add_content
  make_file_missing r b h missing =
      let body = error_body (some (status_of r.code).0) (codes "File NotFound!") in
      head-Extended (Returns _) r b (length (content_length (length body)) + length body) _ h
        λ b' p. rw missing (
          Returns-bind
            (error_content-Extended (codes "File NotFound!")
              (record r { code = some (status_of r.code).0 }) b' 0
              (record { valid = p.left.valid; place = omega (arith, p.left.place) }))
            λ b'' q. returns (refl, (Extended-chain p q).contents))

  -- A file whose mapping fails, as that of an empty file does, makes the server read through the
  -- pointer that reports the failure, when the buffer is valid and has place for the head.
  pub make_file_unmapped :
      (r : Response Prob) (b : Buffer)
      → HasPlace (length (head r)) b
      → open_file (r.src_dir ++ r.path) ≡ true
      → mmap (r.src_dir ++ r.path) r.mm_file_stat.size ≡ none
      → make_file files prob_text r b ≡ fault out_of_bounds
  unfolding make_file add_content
  make_file_unmapped r b h opened unmapped =
      head-Extended (λ run. run ≡ fault out_of_bounds) r b 0 _
        (record { valid = h.valid; place = omega (arith, h.place) }) λ b' p. rw (opened, unmapped)

  -- The labels of the JSON object, separated by commas.
  unfoldable pub inner : Bytes × Prob → List (Bytes × Prob) → Bytes
  inner l [] = item files prob_text l
  inner l (next ∷ more) = item files prob_text l ++ (codes ", " ++ inner next more)

  -- The whole object.
  abbrev pub object : Bytes × Prob → List (Bytes × Prob) → Bytes
  object l ls = codes "{" ++ (inner l ls ++ codes "}")

  items-inner :
      (l : Bytes × Prob) (ls : List (Bytes × Prob))
      → items files prob_text (l ∷ ls) ≡ inner l ls ++ codes ", "
  unfolding items inner
  items-inner l [] = refl
  items-inner l (next ∷ more) =
      let first = item files prob_text l in
      ap (λ t. first ++ (codes ", " ++ t)) (items-inner next more)
      ∙ sym (append_assoc first (codes ", " ++ inner next more) (codes ", "))

  result_json-inner :
      (l : Bytes × Prob) (ls : List (Bytes × Prob))
      → length (object l ls) < 2 ^ 63
      → result_json files prob_text (l ∷ ls) ≡ ok (object l ls)
  unfolding result_json
  result_json-inner l ls small = rw (
    items-inner l ls,
    erase-last (codes "{" ++ inner l ls) (codes ", ") refl
        (omega (arith, small, length-append (inner l ls) (codes "}"))),
  )

  -- The labels are plain text, and each probability is written as a number.
  abbrev pub AreEntries : List (Bytes × Prob) → Type 0
  AreEntries [] = Unit {0}
  AreEntries ((label, prob) ∷ ls) =
      ((is_text label ≡ true) × IsNumber (prob_text prob)) × AreEntries ls

  abbrev pub entries : List (Bytes × Prob) → List (Bytes × Bytes)
  entries [] = []
  entries ((label, prob) ∷ ls) = (label, prob_text prob) ∷ entries ls

  item-member :
      (label : Bytes) (prob : Prob) (rest : Bytes)
      → member label (codes " ") (codes " ") (prob_text prob) rest
        ≡ item files prob_text (label, prob) ++ rest
  unfolding item
  item-member label prob rest =
      ap (◌∷◌ b'"') (sym (append_assoc label (codes "\" : " ++ prob_text prob) rest))

  inner-IsMembers :
      (l : Bytes × Prob) (ls : List (Bytes × Prob))
      → AreEntries (l ∷ ls)
      → IsMembers (entries (l ∷ ls)) (inner l ls)
  unfolding inner are_blanks
  inner-IsMembers (label, prob) [] ((text, number), _) =
      subst (IsMembers (entries ((label, prob) ∷ [])))
        (item-member label prob [] ∙ append-nil (item files prob_text (label, prob)))
        (IsMembers.last (codes " ") (codes " ") text number refl refl)
  inner-IsMembers (label, prob) (next ∷ more) ((text, number), later) =
      subst (IsMembers (entries ((label, prob) ∷ next ∷ more)))
        (item-member label prob (codes ", " ++ inner next more))
        (IsMembers.then_member (codes " ") (codes " ") (codes " ") text number refl refl refl
          (inner-IsMembers next more later))

  -- With at least one label, where the labels are plain text and each probability is written as a
  -- number, and with place in a valid buffer: the answer to "/result.html" is the head, a
  -- Content-length whose digits are the length of the body in decimal, a blank line, and the body,
  -- which is a JSON object with the labels for its keys and the probabilities for their numbers, in
  -- order.
  pub make_result_sends :
      (r : Response Prob) (b : Buffer) (l : Bytes × Prob) (ls : List (Bytes × Prob))
      → HasPlace
          (length (head r)
            + (length (content_length (length (object l ls))) + length (object l ls)))
          b
      → r.cls_probs ≡ l ∷ ls
      → AreEntries (l ∷ ls)
      → Returns
          (λ (r', b').
            (r' ≡ record r { code = some (status_of r.code).0 })
            × (digits : Bytes) × (body : Bytes) × (are_digits digits ≡ true)
            × (read_decimal 0 digits ≡ length body)
            × IsObject (entries (l ∷ ls)) body
            × (unread b'
                ≡ unread b
                  ++ (head r
                      ++ (codes "Content-length: " ++ (digits ++ (codes "\r\n\r\n" ++ body))))))
          (make_result files prob_text r b)
  unfolding make_result
  make_result_sends r b l ls h labels plain =
      let json = object l ls in
      let (are_decimal, value) = to_string-digits (length json) in
      head-Extended (Returns _) r b (length (content_length (length json)) + length json) _ h
        λ b' p.
          rw (labels, result_json-inner l ls (omega (arith, h.place)))
            (Returns-bind
              (append-Extended b' (content_length (length json)) (length json + 0)
                (record { valid = p.left.valid; place = omega (arith, p.left.place) }))
              λ b₃ q. Returns-bind (append-Extended b₃ json 0 q.left) λ b₄ t. returns (
                refl,
                to_string (length json),
                json,
                are_decimal,
                value,
                record { members = inner l ls; listed = inner-IsMembers l ls plain; braces = refl },
                (Extended-chain p (Extended-chain q t)).contents
                    ∙ ap (λ text. unread b ++ (head r ++ text)) (content_text (length json) json),
              ))
    where
      content_text :
          (n : ℕ) (body : Bytes)
          → content_length n ++ body
            ≡ codes "Content-length: " ++ (to_string n ++ (codes "\r\n\r\n" ++ body))
      content_text n body =
          unfold content_length in
          (append_assoc (codes "Content-length: ") (to_string n ++ codes "\r\n\r\n") body
            ∙ ap (◌++◌ (codes "Content-length: "))
                (append_assoc (to_string n) (codes "\r\n\r\n") body))

  -- Without a label the answer to "/result.html" is an exception that nothing catches, on any valid
  -- buffer with place for the head: there is no comma to erase, and the position wraps.
  pub make_result_empty :
      (r : Response Prob) (b : Buffer)
      → HasPlace (length (head r)) b
      → r.cls_probs ≡ []
      → make_result files prob_text r b ≡ fault uncaught
  unfolding make_result result_json erase items
  make_result_empty r b h none_left =
      head-Extended (λ run. run ≡ fault uncaught) r b 0 _
        (record { valid = h.valid; place = omega (arith, h.place) }) λ b' p. rw none_left

  -- The code -1, which stands for a malformed request, makes the same answer as the code 200 for
  -- every path but "/result.html".
  pub make_response_malformed :
      (r : Response Prob) (b : Buffer)
      → bytes_eq r.path (codes "/result.html") ≡ false
      → make_response files prob_text (record r { code = none }) b
        ≡ make_response files prob_text (record r { code = some 200 }) b
  unfolding make_response choose_code
  make_response_malformed r b other =
      rw other (ap (λ r'. make_file files prob_text (error_html files prob_text r') b) chosen)
    where
      by_stat :
          (found : Option FileStat)
          → stat (r.src_dir ++ r.path) ≡ found
          → choose_code files prob_text (record r { code = none })
            ≡ choose_code files prob_text (record r { code = some 200 })
      by_stat none e = rw (choose_code, e)
      by_stat (some found) e = rw (choose_code, e) (ground arith)

      chosen :
          choose_code files prob_text (record r { code = none })
          ≡ choose_code files prob_text (record r { code = some 200 })
      chosen = by_stat (stat (r.src_dir ++ r.path)) refl
