-- ===== src/Url/Keeps.antt =====
-- The setters of `URL` that leave its query alone.
use breeze_js.Prelude.{ℕ, ◌≡◌, refl, [], ◌∷◌, subst, some_injective, some, arith, ==-refl}
use breeze_js.Bytes.{Bytes}
use breeze_js.Url.{Url, Store, set_url, serialize_url}
use breeze_js.Url.Setters.{
  set_protocol, set_username, set_password, set_host, split_host, set_hostname, set_port,
  set_pathname, set_hash,
}
use breeze_js.Url.Sync.{IsSynced, set_url-IsLinked}

-- A setter that leaves the query and its parameters alone, and writes the href anew.
abbrev pub Keeps : Url → Url → Type 0
Keeps x y = (y.search ≡ x.search) × (y.search_params ≡ x.search_params) × (y.href ≡ serialize_url y)

pub set_url-IsSynced :
    (u : ℕ) (x : Url) (m : Store) → Keeps (m.url u) x → IsSynced u m → IsSynced u (set_url m u x)
set_url-IsSynced u x m (s, p, r) h = record {
  links = set_url-IsLinked u x m p h.links;
  listed = rw (==-refl u, s, p) h.listed;
  printed = rw (==-refl u) r;
}

pub set_username-Keeps :
    (s : Bytes) (x : Url) → x.href ≡ serialize_url x → Keeps x (set_username s x)
unfolding set_username serialize_url
set_username-Keeps s x h = ground arith

pub set_password-Keeps :
    (s : Bytes) (x : Url) → x.href ≡ serialize_url x → Keeps x (set_password s x)
unfolding set_password serialize_url
set_password-Keeps s x h = ground arith

pub set_host-Keeps : (s : Bytes) (x : Url) → x.href ≡ serialize_url x → Keeps x (set_host s x)
unfolding set_host split_host serialize_url
set_host-Keeps s x h = ground arith

pub set_hostname-Keeps :
    (s : Bytes) (x : Url) → x.href ≡ serialize_url x → Keeps x (set_hostname s x)
unfolding set_hostname serialize_url
set_hostname-Keeps s x h = ground arith

pub set_port-Keeps : (s : Bytes) (x : Url) → x.href ≡ serialize_url x → Keeps x (set_port s x)
unfolding set_port serialize_url
set_port-Keeps s x h = ground arith

pub set_pathname-Keeps :
    (s : Bytes) (x : Url) → x.href ≡ serialize_url x → Keeps x (set_pathname s x)
unfolding set_pathname serialize_url
set_pathname-Keeps s x h = ground arith

pub set_hash-Keeps : (s : Bytes) (x : Url) → Keeps x (set_hash s x)
unfolding set_hash serialize_url
set_hash-Keeps [] x = (refl, refl, refl)
set_hash-Keeps (c ∷ cs) x = (refl, refl, refl)

pub set_protocol-Keeps : (s : Bytes) (x y : Url) → set_protocol s x ≡ some y → Keeps x y
unfolding set_protocol serialize_url
set_protocol-Keeps [] x y e = cc
set_protocol-Keeps (c ∷ cs) x y e = subst (Keeps x) (some_injective e) (refl, refl, refl)
