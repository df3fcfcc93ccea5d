-- ===== src/Tests/Stdio.antt =====
-- Formatted output of the runtime on small formats.
use my_oscpu.Base.{ℕ, ◌≤◌, ◌≡◌, refl, arith, List, [], ◌∷◌, ◌++◌, length, ok, codes, Halts}
use my_oscpu.Klib.Stdio.{
  int_arg, string_arg, digit_loop, swap_loop, itoa, pad_loop, pad_width, print_int, read_number,
  read_padding, read_precision, convert_int, convert_string, convert, convert_next, conversion,
  format_loop, vsnprintf,
}
use my_oscpu.Klib.Stdio.Itoa.Atoi.{atoi-itoa}
use my_oscpu.Klib.Stdio.Fits.{vsnprintf-Fits}

-- Nothing is printed of 0.
zero_printed : vsnprintf 16 (codes "<%d>") (int_arg 0 ∷ []) ≡ ok (codes "<>" ++ 0 ∷ [], 2)
unfolding vsnprintf format_loop conversion convert_next convert convert_int print_int itoa
    digit_loop swap_loop pad_loop pad_width read_number read_padding read_precision
zero_printed = refl

cut : vsnprintf 4 (codes "a%s") (string_arg (codes "bcdef") ∷ []) ≡ ok (codes "abc" ++ 0 ∷ [], 6)
unfolding vsnprintf format_loop conversion convert_next convert convert_string read_number
    read_padding read_precision
cut = refl

atoi-itoa_example : (text : List ℕ) × (itoa 42 10 ≡ ok text)
atoi-itoa_example = let printed = atoi-itoa 42 (omega arith) (omega arith) in (printed.0, printed.1)

vsnprintf-Fits_example :
    Halts (λ (r : List ℕ × ℕ). length r.0 ≤ 4) (vsnprintf 4 (codes "a%d") (int_arg 4096 ∷ []))
vsnprintf-Fits_example = vsnprintf-Fits 4 (codes "a%d") (int_arg 4096 ∷ [])
