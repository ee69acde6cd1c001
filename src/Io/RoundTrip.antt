-- ===== src/Io/RoundTrip.antt =====
-- Reading after writing.
use breeze_js.Prelude.{
  ℕ, zero, suc, nil_of_length, ◌≡◌, refl, sym, ap, ◌∙◌, subst, inl, inr, Bool, true, false, not, [],
  ◌∷◌, ◌++◌, Option, none, some, ◌==◌, ==_iff, ==-refl, if◌then◌else◌, length, take, drop,
  Option-cases, Bool-cases, append-nil,
}
use breeze_js.Prelude.Result.{ok, throws, ok_injective, Result-cases}
use breeze_js.Bytes.{Bytes}
use breeze_js.Io.{
  System, read_file, finish_read, write_file, write_opened, finish_write, create_first,
}

-- What the system documents, with `holds d path` what a file holds: opening for writing empties the
-- file, a write without an error has put the first bytes of the buffer over those that were there, a
-- file has the size of what it holds, and a read without an error has filled the buffer from the
-- front, with no more bytes than asked for.
pub record IsFaithful {Disk : Type 0} (io : System Disk) (holds : Disk → Bytes → Bytes)
    : Type 0 where
  pub emptied : (d d' : Disk) (path : Bytes) → io.open_out d path ≡ some d' → holds d' path ≡ []
  pub written :
      (d d' : Disk) (path content : Bytes) (count : ℕ)
      → io.async_write d path content ≡ (none, count, d')
      → holds d' path ≡ take count content ++ drop count (holds d path)
  pub sized : (d : Disk) (path : Bytes) → io.file_size d path ≡ length (holds d path)
  pub filled :
      (d : Disk) (path buffer : Bytes) (asked count : ℕ)
      → io.async_read d path asked ≡ (none, count, buffer)
      → take count buffer ≡ take count (holds d path) × (length buffer ≡ asked)

pub take_self : (xs : Bytes) → take (length xs) xs ≡ xs
take_self [] = refl
take_self (x ∷ xs) = ap (λ ys. x ∷ ys) (take_self xs)

drop-nil : (n : ℕ) → drop {A = ℕ} n [] ≡ []
drop-nil zero = refl
drop-nil (suc n) = refl

-- A test in front of an error.
passed {ℓ} :
    {A : Type ℓ} (b : Bool) (e : Bytes) (a c : A)
    → (if not b then throws e else ok a) ≡ ok c
    → (b ≡ true) × (a ≡ c)
passed true e a c h = (refl, ok_injective h)
passed false e a c h = cc

module _ {Disk : Type 0} (io : System Disk) (holds : Disk → Bytes → Bytes)
    (faithful : IsFaithful io holds) where
  finish_write-ok :
      (path content : Bytes) (o : Option Bytes × ℕ × Disk) (d : Disk)
      → finish_write io path content o ≡ ok d
      → o ≡ (none, length content, d)
  unfolding finish_write
  finish_write-ok path content (some e, count, d') d h = cc
  finish_write-ok path content (none, count, d') d h =
      let (same, left) = passed (count == length content) _ d' d h in
      cc ((==_iff count (length content)).0 same, left)

  finish_read-ok :
      (path : Bytes) (size : ℕ) (o : Option Bytes × ℕ × Bytes) (content : Bytes)
      → finish_read io path size o ≡ ok content
      → o ≡ (none, size, content)
  unfolding finish_read
  finish_read-ok path size (some e, count, buffer) content h = cc
  finish_read-ok path size (none, count, buffer) content h =
      let (same, left) = passed (count == size) _ buffer content h in
      cc ((==_iff count size).0 same, left)

  write_opened-holds :
      (path content : Bytes) (d d' : Disk)
      → write_opened io path content d ≡ ok d'
      → holds d' path ≡ content
  unfolding write_opened
  write_opened-holds path content d d' h = elim (Option-cases (io.open_out d path)) [
    | inl miss ↦ cc (rw (write_opened, miss) at h)
    | inr (opened, found) ↦
        let w =
          finish_write-ok path content (io.async_write opened path content) d'
            (rw (write_opened, found) at h) in
        faithful.written opened d' path content (length content) w
        ∙ rw (faithful.emptied d opened path found, take_self content, drop-nil (length content))
            (append-nil content)
  ]

  write_file-holds :
      (path content : Bytes) (d d' : Disk)
      → write_file io path content d ≡ ok d'
      → holds d' path ≡ content
  unfolding write_file
  write_file-holds path content d d' h = elim (Result-cases (create_first io path d)) [
    | inr (e, threw) ↦ cc (rw (write_file, threw) at h)
    | inl (made, found) ↦ write_opened-holds path content made d' (rw (write_file, found) at h)
  ]

  read_file-holds :
      (path content : Bytes) (d : Disk) → read_file io path d ≡ ok content → content ≡ holds d path
  unfolding read_file
  read_file-holds path content d h = elim (Bool-cases (io.open_in d path)) [
    | inr closed ↦ cc (rw (read_file, closed) at h)
    | inl opened ↦ elim (Bool-cases (io.file_size d path == 0)) [
      | inl empty ↦
          sym (ok_injective (rw (read_file, opened, empty) at h))
          ∙ sym (
              nil_of_length (holds d path)
                (sym (faithful.sized d path) ∙ (==_iff (io.file_size d path) 0).0 empty))
      | inr full ↦
          let size = io.file_size d path in
          let r =
            finish_read-ok path size (io.async_read d path size) content
              (rw (read_file, opened, full) at h) in
          let (same, len) = faithful.filled d path content size size r in
          sym (take_self content)
          ∙ ap (λ n. take n content) len
          ∙ same
          ∙ ap (λ n. take n (holds d path)) (faithful.sized d path)
          ∙ take_self (holds d path)
    ]
  ]

  -- A read that is not cut short returns.
  read_file-returns :
      (path buffer : Bytes) (d : Disk)
      → io.open_in d path ≡ true
      → io.async_read d path (io.file_size d path) ≡ (none, io.file_size d path, buffer)
      → (l : Bytes) × (read_file io path d ≡ ok l)
  unfolding read_file
  read_file-returns path buffer d opened full_read = elim (Bool-cases (io.file_size d path == 0)) [
    | inl empty ↦ ([], rw (read_file, opened, empty) refl)
    | inr full ↦ (
      buffer,
      rw (read_file, opened, full, full_read, finish_read, ==-refl (io.file_size d path)) refl,
    )
  ]

  -- On a system that does what it documents, a file that was written without an error holds the
  -- content, of any length. A read of it that returns gives the content, and it does return if the
  -- file can be opened and the read is not cut short.
  pub write_file-read_file :
      (path content : Bytes) (d d' : Disk)
      → write_file io path content d ≡ ok d'
      → (holds d' path ≡ content)
        × ((l : Bytes) → read_file io path d' ≡ ok l → l ≡ content)
        × ((buffer : Bytes)
            → io.open_in d' path ≡ true
            → io.async_read d' path (length content) ≡ (none, length content, buffer)
            → read_file io path d' ≡ ok content)
  write_file-read_file path content d d' h =
      let e = write_file-holds path content d d' h in
      let read : (l : Bytes) → read_file io path d' ≡ ok l → l ≡ content =
        λ l r. read_file-holds path l d' r ∙ e in
      let size : io.file_size d' path ≡ length content = faithful.sized d' path ∙ ap length e in
      (
        e,
        read,
        λ buffer opened full_read.
            let (l, r) =
              read_file-returns path buffer d' opened
                (subst (λ n. io.async_read d' path n ≡ (none, n, buffer)) (sym size) full_read) in
            r ∙ ap ok (read l r),
      )
