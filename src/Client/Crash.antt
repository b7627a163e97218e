-- ===== src/Client/Crash.antt =====
-- client/http_client.cpp against code/http: what the server does with the request of the client.
use torch_server.Base.{
  ◌≡◌, refl, ◌∙◌, sym, ap, true, false, Bytes, codes, [], ◌∷◌, ◌++◌, append_assoc, length, some,
  none, ok, fault, uncaught, arith, bytes_eq,
}
use torch_server.Buffer.{Buffer}
use torch_server.Buffer.Valid.{IsValid, unread}
use torch_server.Client.{get_request, send_post}
use torch_server.Http.Conn.{Conn, process, answer}
use torch_server.Http.Lines.{has_char, is_default_html, parse_path}
use torch_server.Http.Request.{
  Request, Classifier, ParseState, World, parse_body, entry, is_keep_alive,
}
use torch_server.Http.Request as HttpRequest
use torch_server.Http.Request.Message.{
  Head, IsHead, render, request_line, render_field, render_fields,
}
use torch_server.Http.Request.Whole.{with_head, parse-render_body}
use torch_server.Http.Response.{
  Files, Response, to_string, decimal, status_of, code_status, content_length,
}
use torch_server.Http.Response as HttpResponse
use torch_server.Http.Response.Text.{HasPlace, state_line, header_text}
use torch_server.Http.Response.Make.{make_response}
use torch_server.Http.Response.Laws.{head, make_result_empty}
use torch_server.Http.Verify.{Mysql}

-- The parts of the client's request.
abbrev client_head : Bytes → Head
client_head host = record {
  method = codes "POST";
  path = codes "/result";
  version = codes "1.0";
  fields =
      (codes "Host", host)
      ∷ (
        codes "User-Agent",
        codes
            "Mozilla/5.0 (Windows; U; Windows NT 5.1; zh-CN; rv:1.9.2.3) Gecko/20100401 Firefox/3.6.3",
      )
      ∷ (codes "Content-Type", codes "application/x-www-form-urlencoded")
      ∷ (codes "Connection", codes "close")
      ∷ [];
}

send_post-render :
    (host img : Bytes) → send_post host img ≡ render (client_head host) (codes "img_str=" ++ img)
unfolding send_post get_request render request_line render_fields render_field
send_post-render host img =
    ap (λ t. codes "POST /result HTTP/1.0\r\nHost: " ++ t)
      (sym (
        append_assoc host
          (codes
              "\r\nUser-Agent: Mozilla/5.0 (Windows; U; Windows NT 5.1; zh-CN; rv:1.9.2.3) Gecko/20100401 Firefox/3.6.3\r\n"
            ++ codes "Content-Type: application/x-www-form-urlencoded\r\nConnection: close\r\n")
          (codes "\r\nimg_str=" ++ img)))

client_head-IsHead :
    (host : Bytes) → has_char 10 host ≡ false → has_char 13 host ≡ false → IsHead (client_head host)
unfolding has_char request_line
client_head-IsHead host no_lf no_cr = record {
  method_word = refl;
  path_word = refl;
  version_word = refl;
  one_line = refl;
  short = omega arith;
  fields = (
    refl,
    refl,
    no_lf,
    no_cr,
    (refl, refl, refl, refl, (refl, refl, refl, refl, (refl, refl, refl, refl, tt))),
  );
}

module _ (sql : Mysql) (model : Classifier) (files : Files) (prob_text : model.Prob → Bytes)
    (src_dir : Bytes) (host img : Bytes) where
  open model use {Prob}

  -- The request after the body's line: the body was not looked at.
  abbrev parsed : Request Prob → Request Prob
  parsed r = record (with_head sql model (client_head host) ParseState.body r) {
    header =
        (entry (codes "Content-Length")
          (with_head sql model (client_head host) ParseState.body r).header).1;
  }

  body_skipped :
      (r : Request Prob) (w : World sql model)
      → r.header (codes "Content-Length") ≡ none
      → parse_body sql model
          (codes "img_str=" ++ img)
          (with_head sql model (client_head host) ParseState.body r)
          w
        ≡ ok (true, parsed r, w)
  unfolding parse_body entry
  body_skipped r w missing = rw missing

  -- The response that is made for it.
  abbrev answered : Response Prob → Response Prob
  answered resp = record {
    code = some 200;
    is_keep_alive = false;
    path = codes "/result.html";
    src_dir = src_dir;
    mm_file = none;
    mm_file_stat = HttpResponse.no_stat;
    cls_probs = [];
  }

  head_fits :
      (resp : Response Prob) (b : Buffer)
      → HasPlace 512 b
      → HasPlace (length (head files prob_text (answered resp))) b
  unfolding state_line header_text to_string decimal status_of code_status
  head_fits resp b place = record { valid = place.valid; place = omega (arith, place.place) }

  answer_crashes :
      (c : Conn Prob)
      → bytes_eq src_dir [] ≡ false
      → c.request.path ≡ codes "/result.html"
      → c.request.cls_probs ≡ []
      → HasPlace 512 c.write_buff
      → answer sql model files prob_text src_dir false (some 200) c ≡ fault uncaught
  unfolding answer HttpResponse.init make_response
  answer_crashes c source path none_left place = rw (
    source,
    path,
    none_left,
    make_result_empty files prob_text (answered c.response) c.write_buff
        (head_fits c.response c.write_buff place) refl,
  )

  closes : (r : Request Prob) → is_keep_alive (parsed (HttpRequest.init r)) ≡ false
  unfolding is_keep_alive entry HttpRequest.init
  closes r = refl

  completed : (r : Request Prob) → (parsed (HttpRequest.init r)).path ≡ codes "/result.html"
  unfolding parse_path is_default_html
  completed r = refl

  -- The request that the bundled client sends, for any host name without line terminators and any
  -- picture without "\r", ends the server: on a connection that was just reset and holds no
  -- labels, whose read buffer is valid and holds exactly that request, and whose write buffer is
  -- valid with place for 512 bytes, `process` throws an exception that nothing catches.
  pub process-send_post :
      (c : Conn Prob) (w : World sql model) (r : Request Prob)
      → has_char 10 host ≡ false
      → has_char 13 host ≡ false
      → has_char 13 img ≡ false
      → bytes_eq src_dir [] ≡ false
      → c.request ≡ HttpRequest.init r
      → r.cls_probs ≡ []
      → IsValid c.read_buff
      → unread c.read_buff ≡ send_post host img
      → HasPlace 512 c.write_buff
      → process sql model files prob_text src_dir c w ≡ fault uncaught
  unfolding process
  process-send_post c w r no_lf no_cr no_cr_img source fresh none_left valid shape place =
      let start : Request Prob = HttpRequest.init r in
      let (b', v', u, run) =
        parse-render_body sql model (client_head host) b'i' (codes "mg_str=" ++ img) start
          (parsed start) c.read_buff w w (client_head-IsHead host no_lf no_cr) valid
          (unfold HttpRequest.init in refl) (unfold has_char in no_cr_img)
          (shape ∙ send_post-render host img)
          (body_skipped start w (unfold HttpRequest.init in refl)) in
      rw (
        fresh,
        run,
        closes r,
        answer_crashes (record c { read_buff = b'; request = parsed start }) source (completed r)
            (unfold HttpRequest.init in none_left) place,
      )
