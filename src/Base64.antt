-- ===== src/Base64.antt =====
-- `infra::btoa` and `infra::atob` of src/breeze-js/binding/std/infra.cc.
--
-- `val` is an `int`: C++23 defines `<<` on it modulo 2^32, so it is kept as its 32-bit pattern; the
-- masked shifts read bits below 32 only, where the arithmetic shift and the logical one agree.
-- `valb` starts at -6 in btoa and at -8 in atob; it is kept as `held`, `valb + 6` or `valb + 8`, the
-- number of bits that `val` holds and that have not been written, so `valb >= 0` reads `6 <= held`.
-- `result.push_back(c)` puts `c` in front of what the rest of the run pushes.
pub mod Alphabet
pub mod RoundTrip
pub mod Shape
pub mod Reference
mod Tests
use breeze_js.Prelude.{
  ℕ, zero, suc, ◌+◌, ◌-◌, ◌*◌, ◌/◌, ◌%◌, ◌^◌, List, [], ◌∷◌, ◌++◌, Option, none, some, leb, ltb,
  ◌==◌, if◌then◌else◌, get_or, length,
}
use breeze_js.Bytes.{Bytes, codes, is_space, find}

abbrev pub base64_chars : Bytes
base64_chars = codes "ABCDEFGHIJKLMNOPQRSTUVWXYZabcdefghijklmnopqrstuvwxyz0123456789+/"

abbrev pub int_mod : ℕ
int_mod = 2 ^ 32

-- `base64_chars[i]`, and the value that `base64_chars.find(c)` adds to an `int`: npos is -1.
unfoldable pub char_at : ℕ → ℕ
char_at i = get_or base64_chars i 0

unfoldable pub index_of : ℕ → ℕ
unfolding find
index_of c = elim (find c base64_chars) [ none ↦ int_mod - 1 | some i ↦ i ]

-- `while (valb >= 0) { push_back(base64_chars[(val >> valb) & 0x3F]); valb -= 6; }`: what it pushes
-- and the bits held after it. `fuel` bounds the rounds; `held` rounds are enough.
unfoldable pub flush : ℕ → ℕ → ℕ → Bytes × ℕ
flush zero val held = ([], held)
flush (suc fuel) val held =
    let (more, left) = flush fuel val (held - 6) in
    if leb 6 held then (char_at (val / 2 ^ (held - 6) % 64) ∷ more, left) else ([], held)

-- The `for` loop of btoa and the `if (valb > -6)` behind it.
unfoldable pub encode : ℕ → ℕ → Bytes → Bytes
unfolding flush
encode val held [] =
    if ltb 0 held then char_at ((val * 2 ^ 8) % int_mod / 2 ^ (held + 2) % 64) ∷ [] else []
encode val held (c ∷ cs) =
    let val' = (val * 2 ^ 8 + c) % int_mod in
    let (out, left) = flush (held + 8) val' (held + 8) in out ++ encode val' left cs

-- `while (result.size() % 4) result.push_back('=')`: three rounds are enough.
unfoldable pub pad : ℕ → Bytes → Bytes
pad zero out = out
pad (suc fuel) out = if length out % 4 == 0 then out else pad fuel (out ++ b'=' ∷ [])

unfoldable pub btoa : Bytes → Bytes
unfolding encode pad
btoa str = pad 3 (encode 0 0 str)

-- The `for` loop of atob.
unfoldable pub decode : ℕ → ℕ → Bytes → Bytes
decode val held [] = []
decode val held (c ∷ cs) =
    let val' = (val * 2 ^ 6 + index_of c) % int_mod in
    let skipped = decode val held cs in
    let kept = decode val' (held + 6) cs in
    let pushed = val' / 2 ^ (held + 6 - 8) % 256 ∷ decode val' (held + 6 - 8) cs in
    if c == b'='
    then []
    else if is_space c
    then skipped
    else if leb 8 (held + 6)
    then pushed
    else kept

unfoldable pub atob : Bytes → Bytes
unfolding decode
atob base64 = decode 0 0 base64
