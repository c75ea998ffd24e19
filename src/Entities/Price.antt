-- ===== src/Entities/Price.antt =====
-- `Security::ConvertPriceToStr` (Security.cpp): a price as the text that the exchange expects, by
-- moves of bytes in a buffer of 25. A buffer is the list of its bytes up to the terminator; an
-- access outside it, or past its capacity, is a fault, `none`.
pub mod Format
pub mod Digits
use simple_cgate.Base.{
  ℕ, zero, suc, ◌+◌, ◌-◌, ◌/◌, ◌%◌, Option, none, some, List, [], ◌∷◌, ◌++◌, Text, codes, length,
  get_elem?, set, ltb, ◌==◌, nat_eq, if◌then◌else◌, bind_some,
}
use simple_cgate.Base.Words.{is_negative64}
use simple_cgate.Entities.Platform.{Platform}
use simple_cgate.Entities.Security.{Security}

abbrev pub result_length : ℕ
result_length = 18

abbrev pub additional_sings : ℕ
additional_sings = 7

-- The decimal digits of a number, by division; the first argument bounds their number.
unfoldable pub digits_from : ℕ → ℕ → Text → Text
digits_from zero n acc = acc
digits_from (suc fuel) n acc =
    let rest = digits_from fuel (n / 10) ((n % 10 + b'0') ∷ acc) in
    if ltb n 10 then (n + b'0') ∷ acc else rest

-- `_i64toa_s` with radix 10, without the terminator. A 64-bit number has at most 19 digits.
unfoldable pub i64_to_a : ℕ → Text
unfolding digits_from
i64_to_a n =
    if is_negative64 n
    then b'-' ∷ digits_from 20 (18446744073709551616 - n) []
    else digits_from 20 n []

-- `cprice[i] = cprice[j]`, for `int` indices `a - c` and `a - d`: a negative index is a fault.
abbrev copy_back : ℕ → ℕ → ℕ → Text → Option Text
copy_back a c d buf =
    if ltb a d
    then none
    else bind_some (get_elem? buf (a - d))
        λ b. if ltb (a - c) (length buf) then some (set buf (a - c) b) else none

-- `for (int i = …; i < 5; i++) cprice[len - 2 - i] = cprice[len - 2 - i - 1]`: rounds left, and `i`.
unfoldable pub shift_loop : ℕ → ℕ → ℕ → Text → Option Text
shift_loop zero i len buf = some buf
shift_loop (suc rounds) i len buf =
    bind_some (copy_back len (2 + i) (3 + i) buf) (shift_loop rounds (i + 1) len)

-- `cprice[i] = b`.
abbrev write_at : ℕ → ℕ → ℕ → Text → Option Text
write_at a d b buf =
    if ltb a d then none else if ltb (a - d) (length buf) then some (set buf (a - d) b) else none

-- From the loop on: the last digit is dropped, five are moved up, and the point is put before them.
insert_point_at : ℕ → Text → Option Text
insert_point_at len buf =
    bind_some (shift_loop 5 0 len buf)
      λ moved. bind_some (write_at len additional_sings b'.' moved) (write_at len 1 0)

unfoldable pub insert_point : Text → Option Text
unfolding shift_loop insert_point_at
insert_point buf = insert_point_at (length buf) buf

-- `memcpy(result, cprice, len)` writes past the 18 bytes of `result` where the text is longer. (The
-- buffer itself has room for 25, which 20 characters never fill.)
unfoldable pub format_price : Text → Option Text
unfolding insert_point
format_price signed =
    if ltb result_length (length signed + 1) then none else insert_point (signed ++ 0 ∷ [])

module _ {D : Type 0} ⦃num : Platform D⦄ where
  -- `round(abs(price) / stepSize) * stepSize * 1000000 + 1`, as a `long long`.
  abbrev pub long_price : D → D → ℕ
  long_price price step = num.int64_of_double (
      num.add_double
        (num.mul_double
          (num.mul_double (num.round_double (num.div_double (num.abs_double price) step)) step)
          (num.double_of_int 1000000))
        (num.double_of_int 1))

  -- The bytes of `result` afterwards, with the terminator; where nothing is written, as before.
  unfoldable pub convert_price_to_str : D → Security D → Text → Option Text
  unfolding i64_to_a format_price
  convert_price_to_str price s result =
      let step = s.step_size in
      let n = long_price price step in
      if num.eq_double price num.zero_double
      then some (codes "0.00000" ++ 0 ∷ [])
      else if num.eq_double step num.zero_double
      then some result
      else if n == 1
      then some (codes "0.00000" ++ 0 ∷ [])
      else format_price
          (if num.lt_double price num.zero_double then b'-' ∷ i64_to_a n else i64_to_a n)
