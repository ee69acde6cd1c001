-- ===== src/Fetch/Reply.antt =====
-- What `fetch` makes of the reply.
use breeze_js.Prelude.{
  ◌≡◌, refl, sym, true, List, [], ◌∷◌, ◌++◌, Option, none, some, arith, ◌≤◌, ◌<◌, ◌↔◌, ◌⊎◌, inl,
  inr, Option-cases,
}
use breeze_js.Prelude.Result.{ok, throws}
use breeze_js.Bytes.{Bytes, codes}
use breeze_js.Headers.{Header, get, is_named, lower}
use breeze_js.Fetch.{
  Response, response_text, blob, RequestInit, ClientCall, RespData, request_call, request_headers,
  answer, respond, fetch,
}

get-spelling : (hs : List Header) (a b : Bytes) → lower a ≡ lower b → get hs a ≡ get hs b
unfolding get is_named
get-spelling [] a b e = refl
get-spelling (h ∷ hs) a b e = rw e (ground (arith, get-spelling hs a b e))

-- A response answers the reply `resp` to a request for `url`.
pub record Answers (url : Bytes) (resp : RespData) (r : Response) : Type 0 where
  pub body_kept : response_text r ≡ resp.resp_body
  pub blob_body : (blob r).bytes ≡ resp.resp_body
  pub ok_iff : (r.is_ok ≡ true) ↔ ((200 ≤ resp.status) × (resp.status < 300))
  pub blob_type :
      (name : Bytes)
      → lower name ≡ lower (codes "content-type")
      → (blob r).type ≡ get resp.resp_headers name

answer-Answers : (url : Bytes) (resp : RespData) → Answers url resp (answer url resp)
unfolding answer blob
answer-Answers url resp = record {
  body_kept = refl;
  blob_body = refl;
  ok_iff = ground arith;
  blob_type = λ name same. get-spelling resp.resp_headers (codes "content-type") name (sym same);
}

-- fetch throws the client's error as "fetch failed: …" and nothing else; with no error, it returns a
-- response with the body of the reply, also as a blob, whose type is what a search of the reply's
-- headers finds under any spelling of "content-type", and which is ok exactly for a status from 200
-- to 299.
pub fetch_lem :
    (hash_order : List Header → List Header) (send : List Header → ClientCall → RespData)
    (url : Bytes) (init : Option RequestInit)
    → let resp = send (hash_order (request_headers init)) (request_call url init) in
      let result = fetch hash_order send url init in
      ((message : Bytes) × (resp.net_err ≡ some message)
        × (result ≡ throws (codes "fetch failed: " ++ message)))
      ⊎ ((r : Response) × (resp.net_err ≡ none) × (result ≡ ok r) × Answers url resp r)
unfolding fetch respond
fetch_lem hash_order send url init =
    let resp = send (hash_order (request_headers init)) (request_call url init) in
    elim (Option-cases resp.net_err) [
      | inl e ↦ inr (answer url resp, e, rw e refl, answer-Answers url resp)
      | inr (message, e) ↦ inl (message, e, rw e refl)
    ]
