-- ===== src/Http/Response/Make.antt =====
-- code/http/http_response.cpp, `make_response`: the choice of the answer, and its content.
use torch_server.Base.{
  ℕ, Bool, not, Bytes, codes, List, [], ◌∷◌, ◌++◌, length, take, some, none, Run, ok, fault,
  uncaught, out_of_bounds, or_fault, ◌>>=◌, ltb, bytes_eq, if◌then◌else◌, is_some,
}
use torch_server.Buffer.{Buffer, append, size_sub}
use torch_server.Http.Response.{
  Files, Response, code_path, content_length, add_state_line, add_header, error_content,
}

-- `json.erase(pos)`: a position behind the end is an exception.
unfoldable pub erase : ℕ → Bytes → Run Bytes
erase pos s = if ltb (length s) pos then fault uncaught else ok (take pos s)

-- The test `*mmRet == -1` reads the first `int` of the mapping; behind a short file it holds zeros.
unfoldable pub is_minus_one : Bytes → Bool
is_minus_one mapped = bytes_eq (take 4 mapped) (255 ∷ 255 ∷ 255 ∷ 255 ∷ [])

module _ (files : Files) {Prob : Type 0} (prob_text : Prob → Bytes) where
  open files use {stat, open_file, mmap}

  -- `"label" : p`
  unfoldable pub item : Bytes × Prob → Bytes
  item (label, prob) = codes "\"" ++ (label ++ (codes "\" : " ++ prob_text prob))

  -- What the loop appends: every label is followed by a comma and a space.
  unfoldable pub items : List (Bytes × Prob) → Bytes
  items [] = []
  items (l ∷ more) = item l ++ (codes ", " ++ items more)

  unfoldable pub result_json : List (Bytes × Prob) → Run Bytes
  result_json cls_probs = do
    let json = codes "{" ++ items cls_probs
    json' ← erase (size_sub (length json) 2) json
    ok (json' ++ codes "}")

  -- The branch for "/result.html".
  unfoldable pub make_result : Response Prob → Buffer → Run (Response Prob × Buffer)
  make_result r buff = do
    (r', buff₁) ← add_state_line r buff
    buff₂ ← add_header r' buff₁
    json ← result_json r'.cls_probs
    buff₃ ← append (content_length (length json)) buff₂
    buff₄ ← append json buff₃
    ok (r', buff₄)

  -- The code for the file, with what `stat` found.
  unfoldable pub choose_code : Response Prob → Response Prob
  choose_code r = elim (stat (r.src_dir ++ r.path)) [
    | none ↦ record r { code = some 404 }
    | some found ↦
        let r' = record r { mm_file_stat = found } in
        if found.is_dir
        then record r' { code = some 404 }
        else if not found.others_read
        then record r' { code = some 403 }
        else if is_some r.code
        then r'
        else record r' { code = some 200 }
  ]

  -- A failed `stat` leaves the struct as it was.
  unfoldable pub error_html : Response Prob → Response Prob
  error_html r = elim (code_path r.code) [
    | none ↦ r
    | some path ↦ elim (stat (r.src_dir ++ path)) [
      | none ↦ record r { path = path }
      | some found ↦ record r { path = path; mm_file_stat = found }
    ]
  ]

  -- A failed `mmap` returns a pointer that the test then reads through.
  unfoldable pub add_content : Response Prob → Buffer → Run (Response Prob × Buffer)
  add_content r buff =
      if open_file (r.src_dir ++ r.path)
      then (do
        mapped ← or_fault (mmap (r.src_dir ++ r.path) r.mm_file_stat.size) out_of_bounds
        if is_minus_one mapped
            then (do buff' ← error_content (codes "File NotFound!") r buff; ok (r, buff'))
            else (do
              buff' ← append (content_length r.mm_file_stat.size) buff
              ok (record r { mm_file = some mapped }, buff')))
      else (do buff' ← error_content (codes "File NotFound!") r buff; ok (r, buff'))

  unfoldable pub make_file : Response Prob → Buffer → Run (Response Prob × Buffer)
  make_file r buff = do
    (r', buff₁) ← add_state_line r buff
    buff₂ ← add_header r' buff₁
    add_content r' buff₂

  unfoldable pub make_response : Response Prob → Buffer → Run (Response Prob × Buffer)
  make_response r buff =
      if bytes_eq r.path (codes "/result.html")
      then make_result r buff
      else make_file (error_html (choose_code r)) buff
