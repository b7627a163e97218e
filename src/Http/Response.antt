-- ===== src/Http/Response.antt =====
-- code/http/http_response.cpp and http_response.h: the response to a request, written into a buffer
-- and, for a file, mapped into memory. The file system is a parameter, and so are the floats.
pub mod Make
pub mod Text
pub mod Json
pub mod Laws
pub mod Tests
use torch_server.Base.{
  ℕ, zero, suc, ◌+◌, ◌-◌, ◌*◌, ◌/◌, ◌%◌, Bool, true, false, not, ◌&&◌, ◌||◌, Bytes, codes, List, [],
  ◌∷◌, ◌++◌, length, take, Option, some, none, Run, ok, fault, uncaught, out_of_bounds, assert,
  or_fault, ◌>>=◌, ◌>>◌, ltb, ◌==◌, bytes_eq, if◌then◌else◌, is_some,
}
use torch_server.Buffer.{Buffer, append}

-- The parts of `struct stat` that the code reads.
pub record FileStat : Type 0 where
  pub is_dir : Bool
  pub others_read : Bool
  pub size : ℕ

-- The file system: `stat`, whether `open` succeeds, and the bytes that `mmap` maps, if it succeeds.
pub record Files : Type 0 where
  pub stat : Bytes → Option FileStat
  pub open_file : Bytes → Bool
  pub mmap : Bytes → ℕ → Option Bytes

-- `code` is -1 where it is `none`, and `mm_file` is null where it is `none`.
pub record Response (Prob : Type 0) : Type 0 where
  pub code : Option ℕ
  pub is_keep_alive : Bool
  pub path : Bytes
  pub src_dir : Bytes
  pub mm_file : Option Bytes
  pub mm_file_stat : FileStat
  pub cls_probs : List (Bytes × Prob)

abbrev pub no_stat : FileStat
no_stat = record { is_dir = false; others_read = false; size = 0 }

-- `std::to_string` of a number: the decimal digits in front of `tail`, at most `fuel` of them.
unfoldable pub decimal : ℕ → ℕ → Bytes → Bytes
decimal zero n tail = tail
decimal (suc fuel) n tail =
    let tail' = (b'0' + n % 10) ∷ tail in
    let rest = decimal fuel (n / 10) tail' in if n / 10 == 0 then tail' else rest

-- A number has at most one digit more than its value.
unfoldable pub to_string : ℕ → Bytes
to_string n = decimal (suc n) n []

-- `CODE_STATUS` and `CODE_PATH`
unfoldable pub code_status : Option ℕ → Option Bytes
code_status none = none
code_status (some code) =
    if code == 200
    then some (codes "OK")
    else if code == 400
    then some (codes "Bad Request")
    else if code == 403
    then some (codes "Forbidden")
    else if code == 404
    then some (codes "Not Found")
    else none

unfoldable pub code_path : Option ℕ → Option Bytes
code_path none = none
code_path (some code) =
    if code == 400
    then some (codes "/400.html")
    else if code == 403
    then some (codes "/403.html")
    else if code == 404
    then some (codes "/404.html")
    else none

-- The code of the status line with its text: an unknown code becomes 400.
unfoldable pub status_of : Option ℕ → ℕ × Bytes
status_of none = (400, codes "Bad Request")
status_of (some code) = elim (code_status (some code)) [
  | some status ↦ (code, status)
  | none ↦ (400, codes "Bad Request")
]

-- `SUFFIX_TYPE`
unfoldable pub suffix_types : List (Bytes × Bytes)
suffix_types =
    (codes ".html", codes "text/html")
    ∷ (codes ".xml", codes "text/xml")
    ∷ (codes ".xhtml", codes "application/xhtml+xml")
    ∷ (codes ".txt", codes "text/plain")
    ∷ (codes ".rtf", codes "application/rtf")
    ∷ (codes ".pdf", codes "application/pdf")
    ∷ (codes ".word", codes "application/nsword")
    ∷ (codes ".png", codes "image/png")
    ∷ (codes ".gif", codes "image/gif")
    ∷ (codes ".jpg", codes "image/jpeg")
    ∷ (codes ".jpeg", codes "image/jpeg")
    ∷ (codes ".au", codes "audio/basic")
    ∷ (codes ".mpeg", codes "video/mpeg")
    ∷ (codes ".mpg", codes "video/mpeg")
    ∷ (codes ".avi", codes "video/x-msvideo")
    ∷ (codes ".gz", codes "application/x-gzip")
    ∷ (codes ".tar", codes "application/x-tar")
    ∷ (codes ".css", codes "text/css ")
    ∷ (codes ".js", codes "text/javascript ")
    ∷ []

unfoldable pub find_type : List (Bytes × Bytes) → Bytes → Option Bytes
find_type [] suffix = none
find_type ((key, mime) ∷ more) suffix =
    let later = find_type more suffix in if bytes_eq key suffix then some mime else later

-- The text from the last dot on, if there is one.
unfoldable pub last_suffix : Bytes → Option Bytes
last_suffix [] = none
last_suffix (c ∷ s) = elim (last_suffix s) [
  | some suffix ↦ some suffix
  | none ↦ if c == b'.' then some (c ∷ s) else none
]

unfoldable pub get_file_type : Bytes → Bytes
get_file_type path = elim (last_suffix path) [
  | none ↦ codes "text/plain"
  | some suffix ↦ elim (find_type suffix_types suffix) [
    | some mime ↦ mime
    | none ↦ codes "text/plain"
  ]
]

-- The line of the body's length, and the blank line.
unfoldable pub content_length : ℕ → Bytes
content_length n = codes "Content-length: " ++ (to_string n ++ codes "\r\n\r\n")

unfoldable pub error_body : Option ℕ → Bytes → Bytes
error_body code message =
    let status : Bytes = elim (code_status code) [
      | some status ↦ status
      | none ↦ codes "Bad Request"
    ] in
    let number : Bytes = elim code [ some n ↦ to_string n | none ↦ codes "-1" ] in
    codes "<html><title>Error</title><body bgcolor=\"ffffff\">"
    ++ (number
        ++ (codes " : "
            ++ (status
                ++ (codes "\n<p>"
                    ++ (message ++ codes "</p><hr><em>TinyWebServer</em></body></html>")))))

module _ {Prob : Type 0} where
  unfoldable pub unmap_file : Response Prob → Response Prob
  unmap_file r = record r { mm_file = none }

  -- The destructor.
  unfoldable pub destroy : Response Prob → Response Prob
  destroy r = unmap_file r

  abbrev pub file : Response Prob → Option Bytes
  file r = r.mm_file

  abbrev pub file_len : Response Prob → ℕ
  file_len r = r.mm_file_stat.size

  -- The constructor; the code is -1.
  unfoldable pub new : Response Prob
  new = record {
    code = none;
    is_keep_alive = false;
    path = [];
    src_dir = [];
    mm_file = none;
    mm_file_stat = no_stat;
    cls_probs = [];
  }

  unfoldable pub init :
      Bytes → Bytes → List (Bytes × Prob) → Bool → Option ℕ → Response Prob → Run (Response Prob)
  init src_dir path cls_probs is_keep_alive code r = do
    assert (not (bytes_eq src_dir []) && not (bytes_eq path []))
    ok (record {
      code = code;
      is_keep_alive = is_keep_alive;
      path = path;
      src_dir = src_dir;
      mm_file = none;
      mm_file_stat = no_stat;
      cls_probs = cls_probs;
    })

  unfoldable pub add_state_line : Response Prob → Buffer → Run (Response Prob × Buffer)
  add_state_line r buff = do
    let (code, status) = status_of r.code
    buff' ←
        append (codes "HTTP/1.1 " ++ (to_string code ++ (codes " " ++ (status ++ codes "\r\n"))))
          buff
    ok (record r { code = some code }, buff')

  unfoldable pub add_header : Response Prob → Buffer → Run Buffer
  add_header r buff = do
    buff₁ ← append (codes "Connection: ") buff
    buff₂ ←
        if r.is_keep_alive
        then (do
          b ← append (codes "Keep-Alive\r\n") buff₁
          append (codes "Keep-Alive: timeout=10000\r\n") b)
        else append (codes "close\r\n") buff₁
    if bytes_eq r.path (codes "/result.html")
        then append (codes "Content-type: application/json\r\n") buff₂
        else append (codes "Content-type: " ++ (get_file_type r.path ++ codes "\r\n")) buff₂

  unfoldable pub error_content : Bytes → Response Prob → Buffer → Run Buffer
  error_content message r buff = do
    let body = error_body r.code message
    buff' ← append (content_length (length body)) buff
    append body buff'
