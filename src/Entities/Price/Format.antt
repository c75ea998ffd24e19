-- ===== src/Entities/Price/Format.antt =====
-- Security.cpp, `ConvertPriceToStr`: what the moves of bytes amount to.
use simple_cgate.Base.{
  ℕ, ◌+◌, ◌-◌, ◌≤◌, ◌<◌, ◌≡◌, refl, ap, ◌∙◌, Option, none, some, [], ◌∷◌, ◌++◌, Text, arith, length,
  length-append, get_elem?, set, ltb, if◌then◌else◌, bind_some,
}
use native.Mathlib.Nat.{suc-add}
use simple_cgate.Entities.Price.{insert_point_at, copy_back, write_at, shift_loop, insert_point}

get_elem?-append : (xs ys : Text) (k : ℕ) → get_elem? (xs ++ ys) (length xs + k) ≡ get_elem? ys k
get_elem?-append [] ys k = ap (get_elem? ys) (omega arith)
get_elem?-append (x ∷ xs) ys k = rw suc-add (get_elem?-append xs ys k)

set-append : (xs ys : Text) (k v : ℕ) → set (xs ++ ys) (length xs + k) v ≡ xs ++ set ys k v
set-append [] ys k v = ap (λ (i : ℕ). set ys i v) (omega arith)
set-append (x ∷ xs) ys k v = rw suc-add (ap (◌∷◌ x) (set-append xs ys k v))

copy_back-append :
    (xs ys : Text) (c d : ℕ)
    → c ≤ 7
    → d ≤ 7
    → length ys ≡ 7
    → copy_back (length xs + 7) c d (xs ++ ys)
      ≡ bind_some
          (get_elem? ys (7 - d))
          λ b. if ltb (7 - c) 7 then some (xs ++ set ys (7 - c) b) else none
copy_back-append xs ys c d hc hd h =
    rw (e d hd, e c hc, get_elem?-append xs ys (7 - d)) (go (get_elem? ys (7 - d)))
  where
    e : (k : ℕ) → k ≤ 7 → length xs + 7 - k ≡ length xs + (7 - k)
    e k h = omega arith

    go :
        (o : Option ℕ)
        → (if ltb (length xs + 7) d
            then none
            else bind_some o λ b.
              if ltb (length xs + (7 - c)) (length (xs ++ ys))
              then some (set (xs ++ ys) (length xs + (7 - c)) b)
              else none)
          ≡ bind_some o λ b. if ltb (7 - c) 7 then some (xs ++ set ys (7 - c) b) else none
    go none = ground arith
    go (some b) = ground (arith, length-append xs ys, set-append xs ys (7 - c) b)

write_at-append :
    (xs ys : Text) (d b : ℕ)
    → 1 ≤ d
    → d ≤ 7
    → length ys ≡ 7
    → write_at (length xs + 7) d b (xs ++ ys) ≡ some (xs ++ set ys (7 - d) b)
write_at-append xs ys d b h1 h7 h =
    rw e (ground (arith, length-append xs ys, set-append xs ys (7 - d) b))
  where
    e : length xs + 7 - d ≡ length xs + (7 - d)
    e = omega arith

module _ (xs : Text) (b5 b4 b3 b2 b1 b0 z : ℕ) where
  shift_loop-append :
      shift_loop 5 0 (length xs + 7) (xs ++ b5 ∷ b4 ∷ b3 ∷ b2 ∷ b1 ∷ b0 ∷ z ∷ [])
      ≡ some (xs ++ b5 ∷ b5 ∷ b4 ∷ b3 ∷ b2 ∷ b1 ∷ z ∷ [])
  unfolding shift_loop
  shift_loop-append = rw (
    copy_back-append xs (b5 ∷ b4 ∷ b3 ∷ b2 ∷ b1 ∷ b0 ∷ z ∷ []) 2 3 (omega arith) (omega arith) refl,
    copy_back-append xs (b5 ∷ b4 ∷ b3 ∷ b2 ∷ b1 ∷ b1 ∷ z ∷ []) 3 4 (omega arith) (omega arith) refl,
    copy_back-append xs (b5 ∷ b4 ∷ b3 ∷ b2 ∷ b2 ∷ b1 ∷ z ∷ []) 4 5 (omega arith) (omega arith) refl,
    copy_back-append xs (b5 ∷ b4 ∷ b3 ∷ b3 ∷ b2 ∷ b1 ∷ z ∷ []) 5 6 (omega arith) (omega arith) refl,
    copy_back-append xs (b5 ∷ b4 ∷ b4 ∷ b3 ∷ b2 ∷ b1 ∷ z ∷ []) 6 7 (omega arith) (omega arith) refl,
  )

  point-append :
      insert_point_at (length xs + 7) (xs ++ b5 ∷ b4 ∷ b3 ∷ b2 ∷ b1 ∷ b0 ∷ z ∷ [])
      ≡ some (xs ++ b'.' ∷ b5 ∷ b4 ∷ b3 ∷ b2 ∷ b1 ∷ 0 ∷ [])
  unfolding insert_point_at
  point-append = rw (
    shift_loop-append,
    write_at-append xs (b5 ∷ b5 ∷ b4 ∷ b3 ∷ b2 ∷ b1 ∷ z ∷ []) 7 b'.' (omega arith) (omega arith)
        refl,
    write_at-append xs (b'.' ∷ b5 ∷ b4 ∷ b3 ∷ b2 ∷ b1 ∷ z ∷ []) 1 0 (omega arith) (omega arith)
        refl,
  )

  -- Of the last seven bytes the point comes first, the five that follow were the first five, and the
  -- sixth is dropped; what stands before them stays.
  pub insert_point-append :
      insert_point (xs ++ b5 ∷ b4 ∷ b3 ∷ b2 ∷ b1 ∷ b0 ∷ z ∷ [])
      ≡ some (xs ++ b'.' ∷ b5 ∷ b4 ∷ b3 ∷ b2 ∷ b1 ∷ 0 ∷ [])
  unfolding insert_point insert_point_at
  insert_point-append =
      ap (λ (n : ℕ). insert_point_at n (xs ++ b5 ∷ b4 ∷ b3 ∷ b2 ∷ b1 ∷ b0 ∷ z ∷ []))
        (length-append xs (b5 ∷ b4 ∷ b3 ∷ b2 ∷ b1 ∷ b0 ∷ z ∷ []))
      ∙ point-append

-- Fewer than six characters before the terminator: the loop reads in front of the buffer.
pub insert_point-short : (buf : Text) → length buf < 7 → insert_point buf ≡ none
unfolding insert_point
insert_point-short [] h = refl
insert_point-short (a ∷ []) h = refl
insert_point-short (a ∷ b ∷ []) h = refl
insert_point-short (a ∷ b ∷ c ∷ []) h = refl
insert_point-short (a ∷ b ∷ c ∷ d ∷ []) h = refl
insert_point-short (a ∷ b ∷ c ∷ d ∷ e ∷ []) h = refl
insert_point-short (a ∷ b ∷ c ∷ d ∷ e ∷ f ∷ []) h = refl
insert_point-short (a ∷ b ∷ c ∷ d ∷ e ∷ f ∷ g ∷ r) h = absurd (omega arith)
