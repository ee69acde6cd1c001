-- ===== src/Io/Tests.antt =====
-- A disk with one file, and the theorem at it.
use breeze_js.Prelude.{
  ℕ, zero, suc, ◌≡◌, refl, Bool, true, false, [], ◌∷◌, ◌++◌, none, some, length, take, drop, subst,
  some_injective, length-append, arith, length-take, ap, sym, ◌∙◌,
}
use breeze_js.Prelude.Result.{ok, throws}
use breeze_js.Bytes.{Bytes, codes}
use breeze_js.Io.{System, read_file, write_file, write_opened, finish_write, create_first, decimal}
use breeze_js.Io.RoundTrip.{IsFaithful, take_self, write_file-read_file}

-- Whether the file is there, and what it holds.
abbrev OneFile : Type 0
OneFile = Bool × Bytes

abbrev zeros : ℕ → Bytes
zeros zero = []
zeros (suc n) = 0 ∷ zeros n

abbrev one_file : System OneFile
one_file = record {
  exists = λ d path. d.0;
  parent_path = λ path. [];
  create_directories = λ d path. ok d;
  create_directory = λ d path. throws (codes "no");
  remove = λ d path. ok (false, []);
  remove_all = λ d path. ok (false, []);
  read_stream = λ d path. some d.1;
  open_stream = λ d path. some (true, []);
  open_in = λ d path. d.0;
  open_out = λ d path. some (true, []);
  file_size = λ d path. length d.1;
  async_read = λ d path n. (none, length (take n d.1), take n (d.1 ++ zeros n));
  async_write =
      λ d path content. (none, length content, (true, content ++ drop (length content) d.1));
}

decimal_runs : decimal 305 ≡ codes "305"
unfolding decimal
decimal_runs = refl

write_runs : write_file one_file (codes "f") (codes "abc") (false, []) ≡ ok (true, codes "abc")
unfolding write_file create_first write_opened finish_write
write_runs = refl

abbrev held : OneFile → Bytes → Bytes
held d path = d.1

take_filled :
    (n : ℕ) (xs zs : Bytes)
    → take (length (take n xs)) (take n (xs ++ zs)) ≡ take (length (take n xs)) xs
take_filled zero xs zs = refl
take_filled (suc n) [] zs = refl
take_filled (suc n) (x ∷ xs) zs = ap (λ ys. x ∷ ys) (take_filled n xs zs)

length-zeros : (n : ℕ) → length (zeros n) ≡ n
length-zeros zero = refl
length-zeros (suc n) = omega (arith, length-zeros n)

one_file-IsFaithful : IsFaithful one_file held
one_file-IsFaithful = record {
  emptied = λ d d' path e. sym (ap (λ o. o.1) (some_injective e));
  written = λ d d' path content count e.
      sym (ap (λ p. (p.2).1) e) ∙ rw (← ap (λ p. p.1) e) (rw (take_self content) refl);
  sized = λ d path. refl;
  filled = λ d path buffer asked count e. (
    subst (λ k. take k buffer ≡ take k d.1) (ap (λ p. p.1) e)
        (subst (λ b. take (length (take asked d.1)) b ≡ take (length (take asked d.1)) d.1)
          (ap (λ p. p.2) e) (take_filled asked d.1 (zeros asked))),
    sym (ap (λ p. length p.2) e)
        ∙ omega (
          arith,
          length-take asked (d.1 ++ zeros asked),
          length-append d.1 (zeros asked),
          length-zeros asked,
        ),
  );
}

abbrev after : OneFile
after = (true, codes "abc")

write_file-read_file_example :
    (held after (codes "f") ≡ codes "abc")
    × ((l : Bytes) → read_file one_file (codes "f") after ≡ ok l → l ≡ codes "abc")
    × ((buffer : Bytes)
        → one_file.open_in after (codes "f") ≡ true
        → one_file.async_read after (codes "f") 3 ≡ (none, 3, buffer)
        → read_file one_file (codes "f") after ≡ ok (codes "abc"))
write_file-read_file_example =
    write_file-read_file one_file held one_file-IsFaithful (codes "f") (codes "abc") (false, [])
      after write_runs
