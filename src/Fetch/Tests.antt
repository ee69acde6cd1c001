-- ===== src/Fetch/Tests.antt =====
-- A server with one page, and the theorems on what it is asked.
use breeze_js.Prelude.{◌≡◌, refl, true, List, [], ◌∷◌, ◌++◌, none, some, ◌⊎◌}
use breeze_js.Bytes.{Bytes, codes, str_eq, to_upper}
use breeze_js.Headers.{Header}
use breeze_js.Fetch.{
  Response, text_body, RequestInit, ClientCall, async_get, async_post, json_type, RespData,
  method_of, request_call, fetch, find_header, contains, is_prefix, client_call, content_type_of,
  http_status_text, find_text,
}
use breeze_js.Fetch.Reply.{Answers}
use breeze_js.Fetch.Promise.{told, promise_uses, IsSettled, fetch-IsSettled}
use breeze_js.Bridge.{Context, other_thread}
use breeze_js.Bridge.Uses.{IsBalanced}
use breeze_js.Bridge.Lazy.{resolves, rejects}

abbrev page_server : List Header → ClientCall → RespData
page_server headers (async_get url) = record {
  net_err = none;
  status = 200;
  resp_body = codes "hello";
  resp_headers = (codes "Content-Type", codes "text/plain") ∷ [];
}
page_server headers _ = record {
  net_err = some (codes "refused");
  status = 0;
  resp_body = [];
  resp_headers = [];
}

abbrev page : Bytes
page = codes "http://a/"

abbrev post_json : RequestInit
post_json = record {
  method = codes "post";
  body = some (text_body (codes "{}"));
  headers = some ((codes "Content-Type", codes "application/json; q") ∷ []);
}

post_runs : request_call page (some post_json) ≡ async_post page (codes "{}") json_type
unfolding request_call client_call method_of content_type_of find_header contains is_prefix str_eq
    to_upper
post_runs = refl

not_found_text : http_status_text 404 ≡ codes "Not Found"
unfolding http_status_text find_text
not_found_text = refl

-- Another thread, of a context with an event loop.
abbrev elsewhere : Context
elsewhere = record { script_ctx = true; caller = other_thread }

fetch-IsSettled_example :
    let resp = page_server [] (request_call page none) in
    let result = fetch (λ hs. hs) page_server page none in
    let us = promise_uses elsewhere result in
    (((message : Bytes) × (resp.net_err ≡ some message)
        × (told result ≡ rejects (codes "fetch failed: " ++ message))
        × IsSettled 0 1 us)
      ⊎ ((r : Response) × (resp.net_err ≡ none)
          × (told result ≡ resolves (some r))
          × IsSettled 1 0 us
          × Answers page resp r))
    × IsBalanced us
fetch-IsSettled_example = fetch-IsSettled elsewhere (λ hs. hs) page_server page none
