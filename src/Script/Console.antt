-- ===== src/Script/Console.antt =====
-- The console of src/breeze-js/script.cc, outside Windows: println, dbgout and the conversions between
-- UTF-8 and wide strings.
--
-- The conversions of <codecvt> are parameters: a text, or the text of an std::range_error.
use breeze_js.Prelude.{List, [], ◌∷◌, ◌++◌}
use breeze_js.Prelude.Result.{Result, ok, throws}
use breeze_js.Bytes.{Bytes, codes}

-- What has been written to std::cout and to std::cerr.
pub record Console : Type 0 where
  pub cout : Bytes
  pub cerr : Bytes

-- The catch blocks of utf8_to_wstring and wstring_to_utf8.
abbrev pub report : Bytes → Bytes → Console → Console
report message what console = record console {
  cerr = console.cerr ++ (message ++ (what ++ codes "\n"));
}

module _ (from_bytes to_bytes : Bytes → Result Bytes) where
  unfoldable pub utf8_to_wstring : Bytes → Console → Bytes × Console
  utf8_to_wstring str console = elim (from_bytes str) [
    | ok wide ↦ (wide, console)
    | throws what ↦ ([], report (codes "Error converting UTF-8 to wide string: ") what console)
  ]

  unfoldable pub wstring_to_utf8 : Bytes → Console → Bytes × Console
  wstring_to_utf8 wstr console = elim (to_bytes wstr) [
    | ok str ↦ (str, console)
    | throws what ↦ ([], report (codes "Error converting wide string to UTF-8: ") what console)
  ]

  -- `std::cout << msg << std::endl`, behind the conversion.
  abbrev pub print_line : Bytes → Bytes × Console → Console
  print_line msg (wide, console) = record console { cout = console.cout ++ (msg ++ codes "\n") }

  unfoldable pub dbgout : Bytes → Console → Console
  unfolding utf8_to_wstring
  dbgout msg console = print_line msg (utf8_to_wstring msg console)

  -- `ss << arg << " "` for each argument, and `ss << std::endl`.
  abbrev pub line_of : List Bytes → Bytes
  line_of [] = codes "\n"
  line_of (arg ∷ args) = arg ++ (codes " " ++ line_of args)

  unfoldable pub println : List Bytes → Console → Console
  unfolding utf8_to_wstring
  println args console = print_line (line_of args) (utf8_to_wstring (line_of args) console)
