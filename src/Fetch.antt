-- ===== src/Fetch.antt =====
-- `http::Response` and `http::fetch` of src/breeze-js/binding/std/http.{h,cc}.
--
-- The HTTP client, cinatra's, is the parameter `send`: what it replies to a call with the headers
-- that were added. The headers go through an `std::unordered_map`, whose order is the parameter
-- `hash_order`. JS_ParseJSON is a parameter of `json`. The `Headers` object that a response shares
-- with a script is a field here, or none for a null pointer; a change of it changes the field.
pub mod Calls
pub mod Reply
pub mod Promise
mod Tests
use breeze_js.Prelude.{
  ℕ, Bool, true, false, ◌&&◌, List, [], ◌∷◌, Option, none, some, map, leb, ltb, ◌==◌, if◌then◌else◌,
  is_empty, not, ◌||◌, ◌++◌,
}
use breeze_js.Prelude.Result.{Result, ok, throws}
use breeze_js.Bytes.{Bytes, codes, to_upper, str_eq}
use breeze_js.Blob.{Blob}
use breeze_js.Headers.{Header, get}

pub record Response : Type 0 where
  pub status : ℕ
  pub status_text : Bytes
  pub url : Bytes
  pub headers : Option (List Header)
  pub body : Bytes
  pub is_ok : Bool

abbrev pub response_text : Response → Bytes
response_text r = r.body

abbrev pub response_array_buffer : Response → Bytes
response_array_buffer r = r.body

abbrev pub json_text : Response → Bytes
json_text r = response_text r

-- Response::json
unfoldable pub json {ℓ} : {V : Type ℓ} → (Bytes → Option V) → Response → Result V
json parse_json r = elim (parse_json (response_text r)) [
  | none ↦ throws (codes "exception")
  | some v ↦ ok v
]

-- Response::blob
unfoldable pub blob : Response → Blob
blob r = record {
  bytes = r.body;
  type = elim r.headers [ none ↦ [] | some hs ↦ get hs (codes "content-type") ];
}

-- The cases of the switch of http_status_text.
abbrev pub status_texts : List (ℕ × Bytes)
status_texts =
    (200, codes "OK")
    ∷ (201, codes "Created")
    ∷ (204, codes "No Content")
    ∷ (301, codes "Moved Permanently")
    ∷ (302, codes "Found")
    ∷ (304, codes "Not Modified")
    ∷ (400, codes "Bad Request")
    ∷ (401, codes "Unauthorized")
    ∷ (403, codes "Forbidden")
    ∷ (404, codes "Not Found")
    ∷ (405, codes "Method Not Allowed")
    ∷ (500, codes "Internal Server Error")
    ∷ (502, codes "Bad Gateway")
    ∷ (503, codes "Service Unavailable")
    ∷ []

unfoldable pub find_text : List (ℕ × Bytes) → ℕ → Bytes
find_text [] status = []
find_text (row ∷ rows) status = if status == row.0 then row.1 else find_text rows status

unfoldable pub http_status_text : ℕ → Bytes
unfolding find_text
http_status_text status = find_text status_texts status

pub data Body : Type 0 where
  text_body : Bytes → Body
  array_body : Bytes → Body
  blob_body : Blob → Body

pub record RequestInit : Type 0 where
  pub method : Bytes
  pub body : Option Body
  pub headers : Option (List Header)

pub data ContentType : Type 0 where
  text json_type form_url_encode octet_stream : ContentType

pub data HttpMethod : Type 0 where
  get_method patch_method head_method options_method : HttpMethod

-- The call of the client that fetch awaits.
pub data ClientCall : Type 0 where
  async_get : Bytes → ClientCall
  async_post async_put async_delete : Bytes → Bytes → ContentType → ClientCall
  async_request : Bytes → HttpMethod → Bytes → ClientCall

-- cinatra's resp_data: the message of `net_err`, if it is set, and what the server sent.
pub record RespData : Type 0 where
  pub net_err : Option Bytes
  pub status : ℕ
  pub resp_body : Bytes
  pub resp_headers : List Header

abbrev pub bytes_of : Option Body → Bytes
bytes_of none = []
bytes_of (some (text_body s)) = s
bytes_of (some (array_body s)) = s
bytes_of (some (blob_body b)) = b.bytes

abbrev pub is_binary : Option Body → Bool
is_binary none = false
is_binary (some (text_body s)) = false
is_binary (some (array_body s)) = true
is_binary (some (blob_body b)) = true

abbrev pub list_of : Option (List Header) → List Header
list_of none = []
list_of (some hs) = hs

unfoldable pub method_of : RequestInit → Bytes
method_of init =
    if not (is_empty init.method) && not (str_eq init.method (codes "undefined"))
    then init.method
    else codes "GET"

-- `ct.find(part) != npos`
unfoldable pub is_prefix : Bytes → Bytes → Bool
is_prefix [] s = true
is_prefix (x ∷ xs) [] = false
is_prefix (x ∷ xs) (y ∷ ys) = x == y && is_prefix xs ys

unfoldable pub contains : Bytes → Bytes → Bool
unfolding is_prefix
contains [] part = is_prefix part []
contains (c ∷ s) part = is_prefix part (c ∷ s) || contains s part

-- `req_headers.find(name)`: names are compared as they are spelled.
unfoldable pub find_header : Bytes → List Header → Option Bytes
find_header name [] = none
find_header name (h ∷ hs) = if str_eq h.0 name then some h.1 else find_header name hs

unfoldable pub content_type_of : List Header → Bool → ContentType
unfolding contains find_header
content_type_of headers binary = elim (find_header (codes "Content-Type") headers) [
  | some ct ↦
      if contains ct (codes "application/json")
      then json_type
      else if contains ct (codes "application/x-www-form-urlencoded")
      then form_url_encode
      else if contains ct (codes "application/octet-stream")
      then octet_stream
      else text
  | none ↦ if binary then octet_stream else text
]

-- The method of the fallback: GET unless it is one of three others.
unfoldable pub fallback_method : Bytes → HttpMethod
fallback_method upper_method =
    if str_eq upper_method (codes "PATCH")
    then patch_method
    else if str_eq upper_method (codes "HEAD")
    then head_method
    else if str_eq upper_method (codes "OPTIONS")
    then options_method
    else get_method

abbrev pub upper : Bytes → Bytes
upper = map to_upper

unfoldable pub client_call : Bytes → Bytes → Bytes → ContentType → ClientCall
unfolding fallback_method
client_call url method body content_type =
    let upper_method = upper method in
    if str_eq upper_method (codes "GET")
    then async_get url
    else if str_eq upper_method (codes "POST")
    then async_post url body content_type
    else if str_eq upper_method (codes "PUT")
    then async_put url body content_type
    else if str_eq upper_method (codes "DELETE")
    then async_delete url body content_type
    else async_request url (fallback_method upper_method) body

-- The request that the options stand for; with no options, a GET.
unfoldable pub request_call : Bytes → Option RequestInit → ClientCall
unfolding client_call content_type_of method_of
request_call url none = client_call url (codes "GET") [] (content_type_of [] false)
request_call url (some init) =
    client_call url (method_of init) (bytes_of init.body)
      (content_type_of (list_of init.headers) (is_binary init.body))

abbrev pub request_headers : Option RequestInit → List Header
request_headers none = []
request_headers (some init) = list_of init.headers

-- The response that fetch fills from the reply.
unfoldable pub answer : Bytes → RespData → Response
unfolding http_status_text
answer url resp = record {
  status = resp.status;
  status_text = http_status_text resp.status;
  url = url;
  headers = some resp.resp_headers;
  body = resp.resp_body;
  is_ok = leb 200 resp.status && ltb resp.status 300;
}

unfoldable pub respond : Bytes → RespData → Result Response
unfolding answer
respond url resp = elim resp.net_err [
  | some message ↦ throws (codes "fetch failed: " ++ message)
  | none ↦ ok (answer url resp)
]

unfoldable pub fetch :
    (List Header → List Header)
    → (List Header → ClientCall → RespData)
    → Bytes
    → Option RequestInit
    → Result Response
unfolding respond request_call
fetch hash_order send url init =
    respond url (send (hash_order (request_headers init)) (request_call url init))
