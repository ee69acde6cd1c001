-- ===== src/Fetch/Promise.antt =====
-- `fetch` as a script calls it: the promise that is made of its coroutine.
use breeze_js.Prelude.{ℕ, ◌≡◌, ◌⊎◌, inl, inr, List, ◌++◌, Option, none, some, refl, true}
use breeze_js.Prelude.Result.{Result, ok, throws}
use breeze_js.Bytes.{Bytes, codes}
use breeze_js.Headers.{Header}
use breeze_js.Bridge.{Context, Use}
use breeze_js.Bridge.Uses.{calls, sum_of, IsBalanced}
use breeze_js.Bridge.Lazy.{Settlement, resolves, rejects, try_of, settlement, lazy_uses}
use breeze_js.Bridge.Lazy.Settled.{is_resolve, is_reject, lazy-settled}
use breeze_js.Fetch.{
  Response, RequestInit, ClientCall, RespData, request_call, request_headers, fetch,
}
use breeze_js.Fetch.Reply.{Answers, fetch_lem}

-- How the promise of a result is told, and the uses of the engine for it while the context lives.
abbrev pub told : {T : Type 0} → Result T → Settlement T
told r = settlement (try_of r)

abbrev pub promise_uses : {T : Type 0} → Context → Result T → List Use
promise_uses c r = lazy_uses c true (try_of r)

-- How often the promise is resolved and rejected.
abbrev pub IsSettled : ℕ → ℕ → List Use → Type 0
IsSettled resolved rejected us =
    (sum_of (calls is_resolve) us ≡ resolved) × (sum_of (calls is_reject) us ≡ rejected)

-- The promise of a result is resolved with the value, or rejected with the message.
promise-ok :
    {T : Type 0} (c : Context) (r : Result T) (v : T)
    → r ≡ ok v
    → (told r ≡ resolves (some v)) × IsSettled 1 0 (promise_uses c r)
promise-ok c r v e =
    let (once, never, _) = lazy-settled c (try_of (ok v)) in rw e (refl, (once, never))

promise-throws :
    {T : Type 0} (c : Context) (r : Result T) (what : Bytes)
    → r ≡ throws what
    → (told r ≡ rejects what) × IsSettled 0 1 (promise_uses c r)
promise-throws {T} c r what e =
    let (never, once, _) = lazy-settled {T = T} c (try_of (throws what)) in
    rw e (refl, (never, once))

-- While the context lives, the promise of a fetch is settled once: it is rejected with "fetch
-- failed: …" exactly if the client reports an error, and otherwise resolved with a response that
-- answers the reply: with its body, also as a blob, whose type is what a search of the reply's
-- headers finds under any spelling of "content-type", and which is ok exactly for a status from 200
-- to 299. Every reference that this takes is given up.
pub fetch-IsSettled :
    (c : Context) (hash_order : List Header → List Header)
    (send : List Header → ClientCall → RespData) (url : Bytes) (init : Option RequestInit)
    → let resp = send (hash_order (request_headers init)) (request_call url init) in
      let result = fetch hash_order send url init in
      let us = promise_uses c result in
      (((message : Bytes) × (resp.net_err ≡ some message)
          × (told result ≡ rejects (codes "fetch failed: " ++ message))
          × IsSettled 0 1 us)
        ⊎ ((r : Response) × (resp.net_err ≡ none)
            × (told result ≡ resolves (some r))
            × IsSettled 1 0 us
            × Answers url resp r))
      × IsBalanced us
fetch-IsSettled c hash_order send url init =
    let result = fetch hash_order send url init in
    let (_, _, balanced) = lazy-settled c (try_of result) in
    elim (fetch_lem hash_order send url init) [
      | inl (message, failed, thrown) ↦
          let (is_told, settled) = promise-throws c result _ thrown in
          (inl (message, failed, is_told, settled), balanced)
      | inr (r, worked, returned, answers) ↦
          let (is_told, settled) = promise-ok c result r returned in
          (inr (r, worked, is_told, settled, answers), balanced)
    ]
