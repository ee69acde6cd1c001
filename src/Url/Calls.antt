-- ===== src/Url/Calls.antt =====
-- Scripts as lists of calls on a URL and on search parameters, from a URL that was constructed.
pub mod Synced
use breeze_js.Prelude.{
  ℕ, ◌≡◌, ap, sym, ◌∙◌, ◌⊎◌, inl, inr, List, [], ◌∷◌, Option, none, subst, some_injective, some,
  Option-cases, All,
}
use breeze_js.Prelude.Result.{Result, ok, throws}
use breeze_js.Bytes.{Bytes}
use breeze_js.Query.{Pair}
use breeze_js.Url.{Url, Store, set_url, set_search}
use breeze_js.Url.Params.{append, remove, set, sort}
use breeze_js.Url.Setters.{
  set_protocol, set_username, set_password, set_host, set_hostname, set_port, set_pathname,
  set_hash,
}
use breeze_js.Url.Parser.{Captures, assign, construct, refill, set_href}
use breeze_js.Url.Parsed.{set_href-some, set_href-none}

-- The calls that a script can make on the URL at `u` and on parameters objects.
pub data Call : Type 0 where
  href protocol username password host hostname port pathname search hash : Bytes → Call
  append_to remove_from set_in : ℕ → Bytes → Bytes → Call
  sort_at : ℕ → Call

abbrev pub returned : Result Store → Option Store
returned (ok m) = some m
returned (throws e) = none

abbrev pub written : Store → ℕ → Option Url → Option Store
written m u none = none
written m u (some x) = some (set_url m u x)

abbrev pub and_then : Option Store → (Store → Option Store) → Option Store
and_then none f = none
and_then (some m) f = f m

module _ (match : Bytes → Option Captures) (std_sort : List Pair → List Pair) (u : ℕ) where
  -- A call that throws, or whose behaviour is undefined, gives no store.
  unfoldable pub call : Call → Store → Option Store
  call (href s) m = returned (set_href match u s m)
  call (protocol s) m = written m u (set_protocol s (m.url u))
  call (username s) m = some (set_url m u (set_username s (m.url u)))
  call (password s) m = some (set_url m u (set_password s (m.url u)))
  call (host s) m = some (set_url m u (set_host s (m.url u)))
  call (hostname s) m = some (set_url m u (set_hostname s (m.url u)))
  call (port s) m = some (set_url m u (set_port s (m.url u)))
  call (pathname s) m = some (set_url m u (set_pathname s (m.url u)))
  call (search s) m = some (set_search u s m)
  call (hash s) m = some (set_url m u (set_hash s (m.url u)))
  call (append_to p name value) m = some (append p name value m)
  call (remove_from p name value) m = some (remove p name value m)
  call (set_in p name value) m = some (set p name value m)
  call (sort_at p) m = some (sort std_sort p m)

  -- A script that stops at the first call that gives no store.
  unfoldable pub calls : List Call → Store → Option Store
  calls [] m = some m
  calls (c ∷ cs) m = and_then (call c m) (calls cs)

module _ (match : Bytes → Option Captures) (std_sort : List Pair → List Pair) (u : ℕ) where
  -- What every call that gives a store keeps, if it is a call that `May` allows.
  pub record IsKept {κ} (May : Call → Type 0) (P : Store → Type κ) : Type κ where
    pub keeps_href :
        (s : Bytes) (c : Captures) (m : Store)
        → May (href s)
        → match s ≡ some c
        → P m
        → P (refill u (assign u c m))
    pub keeps_protocol :
        (s : Bytes) (x : Url) (m : Store)
        → May (protocol s)
        → set_protocol s (m.url u) ≡ some x
        → P m
        → P (set_url m u x)
    pub keeps_username :
        (s : Bytes) (m : Store)
        → May (username s)
        → P m
        → P (set_url m u (set_username s (m.url u)))
    pub keeps_password :
        (s : Bytes) (m : Store)
        → May (password s)
        → P m
        → P (set_url m u (set_password s (m.url u)))
    pub keeps_host :
        (s : Bytes) (m : Store) → May (host s) → P m → P (set_url m u (set_host s (m.url u)))
    pub keeps_hostname :
        (s : Bytes) (m : Store)
        → May (hostname s)
        → P m
        → P (set_url m u (set_hostname s (m.url u)))
    pub keeps_port :
        (s : Bytes) (m : Store) → May (port s) → P m → P (set_url m u (set_port s (m.url u)))
    pub keeps_pathname :
        (s : Bytes) (m : Store)
        → May (pathname s)
        → P m
        → P (set_url m u (set_pathname s (m.url u)))
    pub keeps_search : (s : Bytes) (m : Store) → May (search s) → P m → P (set_search u s m)
    pub keeps_hash :
        (s : Bytes) (m : Store) → May (hash s) → P m → P (set_url m u (set_hash s (m.url u)))
    pub keeps_append :
        (p : ℕ) (name value : Bytes) (m : Store)
        → May (append_to p name value)
        → P m
        → P (append p name value m)
    pub keeps_remove :
        (p : ℕ) (name value : Bytes) (m : Store)
        → May (remove_from p name value)
        → P m
        → P (remove p name value m)
    pub keeps_set :
        (p : ℕ) (name value : Bytes) (m : Store)
        → May (set_in p name value)
        → P m
        → P (set p name value m)
    pub keeps_sort : (p : ℕ) (m : Store) → May (sort_at p) → P m → P (sort std_sort p m)

module _ (match : Bytes → Option Captures) (std_sort : List Pair → List Pair) (u : ℕ) where
  call_href_none :
      (s : Bytes) (m : Store) → match s ≡ none → call match std_sort u (href s) m ≡ none
  unfolding call
  call_href_none s m e = rw (set_href-none match u s m e, call)

  call_href_some :
      (s : Bytes) (c : Captures) (m : Store)
      → match s ≡ some c
      → call match std_sort u (href s) m ≡ some (refill u (assign u c m))
  unfolding call
  call_href_some s c m e = rw (set_href-some match u s c m e, call)

  module _ {κ} {May : Call → Type 0} {P : Store → Type κ} (k : IsKept match std_sort u May P) where
    call_keeps :
        (c : Call) (m m' : Store) → May c → P m → call match std_sort u c m ≡ some m' → P m'
    unfolding call
    call_keeps (href s) m m' may h e = elim (Option-cases (match s)) [
      | inl miss ↦ cc (call_href_none s m miss)
      | inr (c, hit) ↦
          subst P (some_injective (sym (call_href_some s c m hit) ∙ e))
            (k.keeps_href s c m may hit h)
    ]
    call_keeps (protocol s) m m' may h e = elim (Option-cases (set_protocol s (m.url u))) [
      | inl undefined ↦ cc (ap (written m u) undefined)
      | inr (x, defined) ↦
          subst P (some_injective (sym (ap (written m u) defined) ∙ e))
            (k.keeps_protocol s x m may defined h)
    ]
    call_keeps (username s) m m' may h e = subst P (some_injective e) (k.keeps_username s m may h)
    call_keeps (password s) m m' may h e = subst P (some_injective e) (k.keeps_password s m may h)
    call_keeps (host s) m m' may h e = subst P (some_injective e) (k.keeps_host s m may h)
    call_keeps (hostname s) m m' may h e = subst P (some_injective e) (k.keeps_hostname s m may h)
    call_keeps (port s) m m' may h e = subst P (some_injective e) (k.keeps_port s m may h)
    call_keeps (pathname s) m m' may h e = subst P (some_injective e) (k.keeps_pathname s m may h)
    call_keeps (search s) m m' may h e = subst P (some_injective e) (k.keeps_search s m may h)
    call_keeps (hash s) m m' may h e = subst P (some_injective e) (k.keeps_hash s m may h)
    call_keeps (append_to p name value) m m' may h e =
        subst P (some_injective e) (k.keeps_append p name value m may h)
    call_keeps (remove_from p name value) m m' may h e =
        subst P (some_injective e) (k.keeps_remove p name value m may h)
    call_keeps (set_in p name value) m m' may h e =
        subst P (some_injective e) (k.keeps_set p name value m may h)
    call_keeps (sort_at p) m m' may h e = subst P (some_injective e) (k.keeps_sort p m may h)

    -- A script of such calls.
    pub calls_keep :
        (cs : List Call) (m m' : Store)
        → All May cs
        → P m
        → calls match std_sort u cs m ≡ some m'
        → P m'
    unfolding calls
    calls_keep [] m m' may h e = subst P (some_injective e) h
    calls_keep (c ∷ cs) m m' may h e = elim (Option-cases (call match std_sort u c m)) [
      | inl stopped ↦ cc stopped
      | inr (n, went) ↦
          calls_keep cs n m' may.1 (call_keeps c m n may.0 h went)
            (sym (ap (λ o. and_then o (calls match std_sort u cs)) went) ∙ e)
    ]
