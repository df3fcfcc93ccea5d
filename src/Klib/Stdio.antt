-- ===== src/Klib/Stdio.antt =====
-- abstract-machine/klib/src/stdio.c for a 32-bit target: an int is its 32-bit pattern, and `size_t` has 32 bits, so that
-- a comparison of an int with a `size_t` is one of patterns. What is written to `out` is a list of characters;
-- `len` is its length. A string is the list of its characters in front of the terminator.
pub mod Itoa
pub mod Fits
pub mod Padding
use my_oscpu.Base.{
  ℕ, zero, suc, ◌+◌, ◌-◌, ◌*◌, ◌/◌, ◌%◌, ◌^◌, Bool, true, false, ◌&&◌, ◌||◌, not, ◌==◌, ltb, leb,
  if◌then◌else◌, Option, none, some, List, [], ◌∷◌, ◌++◌, length, get_or, set, take, add32, sub32,
  neg32, is_neg32, Result, ok, err, panic, undefined, out_of_fuel, ◌>>=◌, ◌>>◌, guard,
}

-- `digit[d]`.
abbrev pub digit : ℕ → ℕ
digit d = if ltb d 10 then b'0' + d else b'a' + (d - 10)

-- The loop `while (value)`, of the magnitude, as every digit is taken by `abs`: the lowest digit first.
unfoldable pub digit_loop : ℕ → ℕ → ℕ → Result (List ℕ)
digit_loop zero base value = err out_of_fuel
digit_loop (suc fuel) base value =
    let rest = digit_loop fuel base (value / base) in
    if value == 0 then ok [] else (rest >>= λ ds. ok (digit (value % base) ∷ ds))

abbrev pub swap : ℕ → ℕ → List ℕ → List ℕ
swap i j s = set (set s i (get_or s j 0)) j (get_or s i 0)

-- The loop that reverses the string, for `n` steps from `i` on.
unfoldable pub swap_loop : ℕ → ℕ → List ℕ → List ℕ
swap_loop zero i s = s
swap_loop (suc n) i s = swap_loop n (i + 1) (swap i (length s - 1 - i) s)

abbrev pub magnitude : ℕ → ℕ
magnitude value = if is_neg32 value then neg32 value else value

-- For a base of at least 2, with which the loop ends. -INT_MIN overflows.
unfoldable pub itoa : ℕ → ℕ → Result (List ℕ)
itoa value base = do
  guard (leb base 16) (panic "assert(base <= 16)")
  guard (leb 2 base) undefined
  let sign = is_neg32 value && (base == 10)
  guard (not (sign && (value == 2 ^ 31))) undefined
  ds ← digit_loop 33 base (magnitude value)
  let wstr = if sign then ds ++ b'-' ∷ [] else ds
  ok (swap_loop (length wstr / 2) 0 wstr)

-- An argument behind the format.
pub data Arg : Type 0 where
  int_arg : ℕ → Arg
  string_arg : List ℕ → Arg
  null_arg : Arg

-- What is written, `total_len` and the arguments that are left.
pub record Output : Type 0 where
  pub text : List ℕ
  pub total_len : ℕ
  pub args : List Arg

-- The flags of a conversion. `precision` is -1 at first.
pub record Flags : Type 0 where
  pub precision_flag : Bool
  pub precision : ℕ
  pub padding_flag : Bool
  pub padding : ℕ

abbrev pub reset_flags : Flags
reset_flags = record {
  precision_flag = false;
  precision = 2 ^ 32 - 1;
  padding_flag = false;
  padding = 0;
}

abbrev pub is_digit_char : ℕ → Bool
is_digit_char c = leb b'0' c && leb c b'9'

-- A number of the format, and the rest of it. The number is an int.
unfoldable pub read_number : ℕ → List ℕ → Result (ℕ × List ℕ)
read_number x [] = ok (x, [])
read_number x (c ∷ fmt) =
    let rest = read_number (x * 10 + (c - b'0')) fmt in
    if is_digit_char c
    then (if ltb (x * 10 + (c - b'0')) (2 ^ 31) then rest else err undefined)
    else ok (x, c ∷ fmt)

unfoldable pub read_padding : List ℕ → Flags → Result (Flags × List ℕ)
unfolding read_number
read_padding [] f = ok (f, [])
read_padding (c ∷ fmt) f =
    let number = read_number 0 fmt in
    if c == b'0'
    then (number >>= λ r. ok (record f { padding_flag = true; padding = r.0 }, r.1))
    else ok (f, c ∷ fmt)

unfoldable pub read_precision : List ℕ → Flags → Result (Flags × List ℕ)
unfolding read_number
read_precision [] f = ok (f, [])
read_precision (c ∷ fmt) f =
    let number = read_number 0 fmt in
    if c == b'.'
    then (number >>= λ r. ok (record f { precision_flag = true; precision = r.0 }, r.1))
    else ok (f, c ∷ fmt)

-- `if (len < n - 1) { *out++ = c; len++; }`.
abbrev pub put_char : ℕ → ℕ → List ℕ → List ℕ
put_char n c text = if ltb (length text) (n - 1) then text ++ c ∷ [] else text

-- The loop that pads, for `width` steps.
unfoldable pub pad_loop : ℕ → ℕ → ℕ → List ℕ → List ℕ
pad_loop n c zero text = text
pad_loop n c (suc width) text =
    let rest = pad_loop n c width (text ++ c ∷ []) in
    if ltb (length text) (n - 1) then rest else text

-- The copy of at most `to_copy` characters into the room that is left.
abbrev pub put_text : ℕ → ℕ → List ℕ → List ℕ → List ℕ
put_text n to_copy str text =
    let room = n - length text - 1 in
    if ltb (length text) (n - 1)
    then text ++ take (if ltb room to_copy then room else to_copy) str
    else text

-- `width` behind its three assignments, an int.
unfoldable pub pad_width : Flags → ℕ → ℕ
pad_width f num_len =
    let width = if ltb num_len f.precision then add32 (sub32 f.precision num_len) 1 else 0 in
    let padded = if ltb num_len f.padding then f.padding else num_len in
    let total_width = if f.precision_flag && ltb num_len f.precision then f.precision else padded in
    if ltb num_len total_width then sub32 (sub32 total_width num_len) width else 0

unfoldable pub print_int : ℕ → Flags → ℕ → List ℕ → Result (List ℕ × ℕ)
unfolding itoa pad_loop pad_width
print_int n f num text = do
  buf ← itoa num 10
  let width = pad_width f (length buf)
  let c = if f.padding_flag then b'0' else b' '
  let padded = pad_loop n c (if is_neg32 width then 0 else width) text
  ok (put_text n (length buf) buf padded, length buf)

abbrev pub print_string : ℕ → Flags → List ℕ → List ℕ → List ℕ
print_string n f str text =
    let cut = if ltb f.precision (length str) then f.precision else length str in
    put_text n (if f.precision_flag then cut else length str) str text

-- `case 'd'` and `case 's'`. An argument of another type, or none, is undefined.
unfoldable pub convert_int : ℕ → Flags → Output → List Arg → Result Output
unfolding print_int
convert_int n f o (int_arg num ∷ args) = do
  (text, num_len) ← print_int n f num o.text
  ok (record { text = text; total_len = add32 o.total_len num_len; args = args })
convert_int n f o _ = err undefined

unfoldable pub convert_string : ℕ → Flags → Output → List Arg → Result Output
convert_string n f o (string_arg str ∷ args) = ok (record {
  text = print_string n f str o.text;
  total_len = add32 o.total_len (length str);
  args = args;
})
convert_string n f o (null_arg ∷ args) = err (panic "assert(str != NULL)")
convert_string n f o _ = err undefined

abbrev pub plain : ℕ → ℕ → Output → Output
plain n c o = record o { text = put_char n c o.text; total_len = add32 o.total_len 1 }

-- The `switch` on the conversion.
unfoldable pub convert : ℕ → Flags → ℕ → Output → Result Output
unfolding convert_int convert_string
convert n f c o =
    if c == b'd'
    then convert_int n f o o.args
    else if c == b's'
    then convert_string n f o o.args
    else ok (plain n c o)

-- A conversion behind its '%', and the rest of the format. If the format ends in it, the terminator is taken
-- for the conversion, and what lies behind the string is read.
unfoldable pub convert_next : ℕ → Flags → Output → List ℕ → Result (Output × List ℕ)
unfolding convert
convert_next n f o [] = err undefined
convert_next n f o (c ∷ fmt) = convert n f c o >>= λ o'. ok (o', fmt)

unfoldable pub conversion : ℕ → List ℕ → Output → Result (Output × List ℕ)
unfolding read_padding read_precision convert_next
conversion n fmt o = do
  (f, fmt1) ← read_padding fmt reset_flags
  (f', fmt2) ← read_precision fmt1 f
  convert_next n f' o fmt2

abbrev pub is_empty : List ℕ → Bool
is_empty [] = true
is_empty (c ∷ s) = false

-- `while (*fmt)`, with fuel for the loop.
unfoldable pub format_loop : ℕ → ℕ → List ℕ → Output → Result Output
unfolding conversion
format_loop zero n fmt o = err out_of_fuel
format_loop (suc fuel) n [] o = ok o
format_loop (suc fuel) n (c ∷ fmt) o = elim (c == b'%' && not (is_empty fmt)) [
  | true ↦ conversion n fmt o >>= λ r. format_loop fuel n r.1 r.0
  | false ↦ format_loop fuel n fmt (plain n c o)
]

-- `vsnprintf`: the bytes that are written from `out` on, and the value.
unfoldable pub vsnprintf : ℕ → List ℕ → List Arg → Result (List ℕ × ℕ)
unfolding format_loop
vsnprintf n fmt args = elim (n == 0) [
  | true ↦ ok ([], 0)
  | false ↦
      format_loop (suc (length fmt)) n fmt (record { text = []; total_len = 0; args = args })
      >>= λ o. ok (o.text ++ 0 ∷ [], o.total_len)
]

-- SIZE_MAX.
unfoldable pub vsprintf : List ℕ → List Arg → Result (List ℕ × ℕ)
vsprintf fmt args = vsnprintf (2 ^ 32 - 1) fmt args

abbrev pub snprintf : ℕ → List ℕ → List Arg → Result (List ℕ × ℕ)
snprintf = vsnprintf

abbrev pub sprintf : List ℕ → List Arg → Result (List ℕ × ℕ)
sprintf = vsprintf

-- What `putstr` is given: the characters in front of the terminator.
abbrev pub until_nul : List ℕ → List ℕ
until_nul [] = []
until_nul (c ∷ s) = if c == 0 then [] else c ∷ until_nul s

-- `printf`: the text that is put out, and the value.
unfoldable pub printf : List ℕ → List Arg → Result (List ℕ × ℕ)
printf fmt args = do (buffer, result) ← vsnprintf 1024 fmt args; ok (until_nul buffer, result)
