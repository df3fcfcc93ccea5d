-- ===== src/Klib/Stdio/Fits.antt =====
-- `vsnprintf` of abstract-machine/klib/src/stdio.c ends, and does not write behind the `n` bytes that it is given.
use my_oscpu.Base.{
  ℕ, zero, suc, ◌+◌, ◌-◌, ◌*◌, ◌^◌, ◌≤◌, ◌<◌, arith, Bool-cases, inl, inr, ◌==◌, ◌&&◌, not, ltb,
  if◌then◌else◌, List, [], ◌∷◌, ◌++◌, length, length-append, take, Halts, Halts-bind, Halts-if,
  Halts-weaken, is_neg32,
}
use my_oscpu.Klib.Stdio.{
  is_digit_char, is_empty, Flags, Output, Arg, int_arg, string_arg, null_arg, reset_flags, itoa,
  magnitude, read_number, read_padding, read_precision, put_char, pad_loop, put_text, print_int,
  convert_int, convert_string, plain, convert, convert_next, conversion, format_loop, vsnprintf,
}
use my_oscpu.Klib.Stdio.Itoa.Atoi.{digit_loop-low_value}

length-take : (n : ℕ) (s : List ℕ) → length (take n s) ≤ n
length-take zero s = omega arith
length-take (suc n) [] = omega arith
length-take (suc n) (c ∷ s) = omega (arith, length-take n s)

-- A text with its terminator is within `n` bytes.
abbrev Fits : ℕ → List ℕ → Type 0
Fits n text = length text + 1 ≤ n

put_char-Fits : (n c : ℕ) (text : List ℕ) → Fits n text → Fits n (put_char n c text)
put_char-Fits n c text h = ground (arith, h, length-append text (c ∷ []))

pad_loop-Fits : (n c width : ℕ) (text : List ℕ) → Fits n text → Fits n (pad_loop n c width text)
unfolding pad_loop
pad_loop-Fits n c zero text h = h
pad_loop-Fits n c (suc width) text h = elim (Bool-cases (ltb (length text) (n - 1))) [
  | inl room ↦
      rw room (
        pad_loop-Fits n c width (text ++ c ∷ [])
          (ground (arith, room, length-append text (c ∷ []))))
  | inr full ↦ rw full h
]

put_text-Fits :
    (n to_copy : ℕ) (str text : List ℕ) → Fits n text → Fits n (put_text n to_copy str text)
put_text-Fits n to_copy str text h =
    let room : ℕ = n - length text - 1 in
    let k : ℕ = if ltb room to_copy then room else to_copy in
    ground (arith, h, length-append text (take k str), length-take k str)

-- The magnitude of an int has at most 31 bits, so its 33 steps of fuel are enough.
itoa-Halts : (v : ℕ) → Halts (λ (s : List ℕ). Unit {0}) (itoa v 10)
unfolding itoa
itoa-Halts v =
    let (ds, is, small, value) = digit_loop-low_value 32 (magnitude v) (ground arith) in
    elim (Bool-cases (is_neg32 v)) [
      | inr plus ↦ rw (is, plus) tt
      | inl minus ↦ elim (Bool-cases (v == 2 ^ 31)) [
        | inl least ↦ rw (is, minus, least) tt
        | inr above ↦ rw (is, minus, above) tt
      ]
    ]

-- A number is read from a format without making it longer.
read_number-Halts :
    (fmt : List ℕ) (x : ℕ) → Halts (λ (r : ℕ × List ℕ). length r.1 ≤ length fmt) (read_number x fmt)
unfolding read_number
read_number-Halts [] x = omega arith
read_number-Halts (c ∷ fmt) x =
    let P : ℕ × List ℕ → Type 0 = λ r. length r.1 ≤ length (c ∷ fmt) in
    Halts-if P (is_digit_char c) _ _
      (Halts-if P (ltb (x * 10 + (c - b'0')) (2 ^ 31)) _ _
        (Halts-weaken (λ (r : ℕ × List ℕ). length r.1 ≤ length fmt) P
          (read_number (x * 10 + (c - b'0')) fmt) (λ r h. omega (arith, h))
          (read_number-Halts fmt (x * 10 + (c - b'0'))))
        tt)
      (omega arith)

-- The flags, and a rest of the format that is no longer.
abbrev Shorter : List ℕ → Flags × List ℕ → Type 0
Shorter fmt r = length r.1 ≤ length fmt

read_padding-Halts : (fmt : List ℕ) (f : Flags) → Halts (Shorter fmt) (read_padding fmt f)
unfolding read_padding
read_padding-Halts [] f = omega arith
read_padding-Halts (c ∷ fmt) f =
    Halts-if (Shorter (c ∷ fmt)) (c == b'0') _ _
      (Halts-bind _ (Shorter (c ∷ fmt)) (read_number 0 fmt) _ (read_number-Halts fmt 0)
        λ r h. omega (arith, h))
      (omega arith)

read_precision-Halts : (fmt : List ℕ) (f : Flags) → Halts (Shorter fmt) (read_precision fmt f)
unfolding read_precision
read_precision-Halts [] f = omega arith
read_precision-Halts (c ∷ fmt) f =
    Halts-if (Shorter (c ∷ fmt)) (c == b'.') _ _
      (Halts-bind _ (Shorter (c ∷ fmt)) (read_number 0 fmt) _ (read_number-Halts fmt 0)
        λ r h. omega (arith, h))
      (omega arith)

module _ (n : ℕ) where
  abbrev FitsOutput : Output → Type 0
  FitsOutput o = Fits n o.text

  print_int-Fits :
      (f : Flags) (num : ℕ) (text : List ℕ)
      → Fits n text
      → Halts (λ (r : List ℕ × ℕ). Fits n r.0) (print_int n f num text)
  unfolding print_int
  print_int-Fits f num text h =
      Halts-bind _ (λ (r : List ℕ × ℕ). Fits n r.0) (itoa num 10) _ (itoa-Halts num)
        λ buf t. put_text-Fits n (length buf) buf _ (pad_loop-Fits n _ _ text h)

  convert_int-Fits :
      (f : Flags) (o : Output) (args : List Arg)
      → FitsOutput o
      → Halts FitsOutput (convert_int n f o args)
  unfolding convert_int
  convert_int-Fits f o [] h = tt
  convert_int-Fits f o (int_arg num ∷ args) h =
      Halts-bind _ FitsOutput (print_int n f num o.text) _ (print_int-Fits f num o.text h) λ r k. k
  convert_int-Fits f o (string_arg s ∷ args) h = tt
  convert_int-Fits f o (null_arg ∷ args) h = tt

  convert_string-Fits :
      (f : Flags) (o : Output) (args : List Arg)
      → FitsOutput o
      → Halts FitsOutput (convert_string n f o args)
  unfolding convert_string
  convert_string-Fits f o [] h = tt
  convert_string-Fits f o (int_arg num ∷ args) h = tt
  convert_string-Fits f o (string_arg s ∷ args) h = put_text-Fits n _ s o.text h
  convert_string-Fits f o (null_arg ∷ args) h = tt

  -- What a conversion leaves: a text that fits, and a rest that is no longer than the format was.
  abbrev IsConverted : List ℕ → Output × List ℕ → Type 0
  IsConverted fmt r = FitsOutput r.0 × (length r.1 ≤ length fmt)

  convert_next-Fits :
      (f : Flags) (o : Output) (fmt : List ℕ)
      → FitsOutput o
      → Halts (IsConverted fmt) (convert_next n f o fmt)
  unfolding convert_next convert
  convert_next-Fits f o [] h = tt
  convert_next-Fits f o (c ∷ fmt) h =
      Halts-bind FitsOutput (IsConverted (c ∷ fmt)) (convert n f c o) _
        (Halts-if FitsOutput (c == b'd') _ _ (convert_int-Fits f o o.args h) (
          Halts-if FitsOutput (c == b's') _ _ (convert_string-Fits f o o.args h)
            (put_char-Fits n c o.text h)))
        λ o' k. (k, omega arith)

  conversion-Fits :
      (fmt : List ℕ) (o : Output) → FitsOutput o → Halts (IsConverted fmt) (conversion n fmt o)
  unfolding conversion
  conversion-Fits fmt o h =
      Halts-bind (Shorter fmt) (IsConverted fmt) (read_padding fmt reset_flags) _
        (read_padding-Halts fmt reset_flags)
        λ r k.
          Halts-bind (Shorter r.1) (IsConverted fmt) (read_precision r.1 r.0) _
            (read_precision-Halts r.1 r.0)
            λ q l.
              Halts-weaken (IsConverted q.1) (IsConverted fmt) (convert_next n q.0 o q.1)
                (λ x m. (m.0, omega (arith, m.1, k, l))) (convert_next-Fits q.0 o q.1 h)

  format_loop-Fits :
      (fuel : ℕ) (fmt : List ℕ) (o : Output)
      → length fmt < fuel
      → FitsOutput o
      → Halts FitsOutput (format_loop fuel n fmt o)
  unfolding format_loop
  format_loop-Fits zero fmt o l h = absurd (omega arith)
  format_loop-Fits (suc fuel) [] o l h = h
  format_loop-Fits (suc fuel) (c ∷ fmt) o l h =
      elim (Bool-cases (c == b'%' && not (is_empty fmt))) [
        | inl is ↦
            rw (is, Halts)
              (Halts-bind (IsConverted fmt) FitsOutput (conversion n fmt o) _
                (conversion-Fits fmt o h)
                λ r k. format_loop-Fits fuel r.1 r.0 (omega (arith, k.1, l)) k.0)
        | inr is ↦
            rw (is, Halts)
              (format_loop-Fits fuel fmt (plain n c o) (omega (arith, l))
                (put_char-Fits n c o.text h))
      ]

-- For every format and all arguments, the steps that the model gives its loops are enough, so that one of three
-- holds: `vsnprintf` returns and what it writes has at most `n` bytes, the terminator among them; or an assertion
-- fails (a null string); or it comes to behaviour that C does not define, of which nothing is said: an argument
-- that is missing or of another type, a width or precision above INT_MAX, INT_MIN as a number, or a format that
-- ends inside a conversion, where the source reads on behind the string.
pub vsnprintf-Fits :
    (n : ℕ) (fmt : List ℕ) (args : List Arg)
    → Halts (λ (r : List ℕ × ℕ). length r.0 ≤ n) (vsnprintf n fmt args)
unfolding vsnprintf
vsnprintf-Fits n fmt args = elim (Bool-cases (n == 0)) [
  | inl none_left ↦ rw (none_left, Halts) (omega arith)
  | inr some_left ↦
      rw (some_left, Halts)
        (Halts-bind (λ (o : Output). Fits n o.text) (λ (r : List ℕ × ℕ). length r.0 ≤ n)
          (format_loop (suc (length fmt)) n fmt _) _
          (format_loop-Fits n (suc (length fmt)) fmt _ (omega arith) (ground (arith, some_left)))
          λ o h. omega (arith, h, length-append o.text (0 ∷ [])))
]
