-- ===== src/Fetch/Calls.antt =====
-- What a request of `fetch` sends.
use breeze_js.Prelude.{◌≡◌, Bool, false, List, [], ◌∷◌, some, if◌then◌else◌, arith, ◌||◌}
use breeze_js.Bytes.{Bytes, codes, str_eq, str_eq_iff}
use breeze_js.Fetch.{
  RequestInit, ContentType, HttpMethod, get_method, patch_method, head_method, options_method,
  ClientCall, async_get, async_post, async_put, async_delete, async_request, bytes_of, method_of,
  upper, client_call, request_call, fallback_method,
}

abbrev pub method_name : HttpMethod → Bytes
method_name get_method = codes "GET"
method_name patch_method = codes "PATCH"
method_name head_method = codes "HEAD"
method_name options_method = codes "OPTIONS"

-- The method and the bytes that a call of the client puts on the wire.
abbrev pub wire_method : ClientCall → Bytes
wire_method (async_get url) = codes "GET"
wire_method (async_post url body t) = codes "POST"
wire_method (async_put url body t) = codes "PUT"
wire_method (async_delete url body t) = codes "DELETE"
wire_method (async_request url method body) = method_name method

abbrev pub sent_bytes : ClientCall → Bytes
sent_bytes (async_get url) = []
sent_bytes (async_post url body t) = body
sent_bytes (async_put url body t) = body
sent_bytes (async_delete url body t) = body
sent_bytes (async_request url method body) = body

abbrev pub one_of : List Bytes → Bytes → Bool
one_of [] m = false
one_of (n ∷ ns) m = str_eq m n || one_of ns m

abbrev pub known_methods : List Bytes
known_methods =
    codes "GET"
    ∷ codes "POST"
    ∷ codes "PUT"
    ∷ codes "DELETE"
    ∷ codes "PATCH"
    ∷ codes "HEAD"
    ∷ codes "OPTIONS"
    ∷ []

client_call-method :
    (url m body : Bytes) (t : ContentType)
    → wire_method (client_call url m body t)
      ≡ (if one_of known_methods (upper m) then upper m else codes "GET")
unfolding client_call fallback_method
client_call-method url m body t =
    let u = upper m in
    ground (
      arith,
      str_eq_iff u (codes "GET"),
      str_eq_iff u (codes "POST"),
      str_eq_iff u (codes "PUT"),
      str_eq_iff u (codes "DELETE"),
      str_eq_iff u (codes "PATCH"),
      str_eq_iff u (codes "HEAD"),
      str_eq_iff u (codes "OPTIONS"),
    )

client_call-body :
    (url m body : Bytes) (t : ContentType)
    → sent_bytes (client_call url m body t) ≡ (if str_eq (upper m) (codes "GET") then [] else body)
unfolding client_call
client_call-body url m body t = ground arith

-- The method that a request with options puts on the wire is the upper case of the one given, but
-- GET where that is empty or "undefined" or none of the seven known methods; the bytes sent are
-- those of the body, of whichever kind, but none where the method given is GET, empty or "undefined".
pub request_call_lem :
    (url : Bytes) (init : RequestInit)
    → let call = request_call url (some init) in
      let m = upper (method_of init) in
      (wire_method call ≡ (if one_of known_methods m then m else codes "GET"))
      × (sent_bytes call ≡ (if str_eq m (codes "GET") then [] else bytes_of init.body))
unfolding request_call
request_call_lem url init = (
  client_call-method url (method_of init) (bytes_of init.body) _,
  client_call-body url (method_of init) (bytes_of init.body) _,
)
