-- ===== src/Streams/WaitFlags.antt =====
-- DataStream.cpp and ServiceStream.cpp: which listeners wait.
use simple_cgate.Base.{
  ℕ, zero, suc, ◌+◌, ◌≤◌, ◌≡◌, refl, ap, Bool, true, false, Option, none, some, List, [], ◌∷◌,
  arith, length, get_elem?, map_some, if◌then◌else◌, leb, ltb, ◌&&◌, ◌≢◌,
}
use simple_cgate.Streams.{
  DataStream, PlazaStream, CGate, set_wait_for_flag, release_from, release_all, update_at,
  init_service_streams, new_service_stream,
}

length-update_at :
    (n : ℕ) (f : PlazaStream → PlazaStream) (ss : List PlazaStream)
    → length (update_at n f ss) ≡ length ss
length-update_at n f [] = refl
length-update_at zero f (s ∷ ss) = refl
length-update_at (suc n) f (s ∷ ss) = ap suc (length-update_at n f ss)

not_cleared : (o : Option Bool) → map_some (λ (b : Bool). false) o ≢ some true
not_cleared none e = cc
not_cleared (some b) e = cc

-- The flag of the listener at an index; `none` if there is no such listener.
abbrev pub waits : ℕ → DataStream → Option Bool
waits j s = map_some (λ (p : PlazaStream). p.wait_for) (get_elem? s.plaza_streams j)

waits-update_at :
    (n j : ℕ) (flag : Bool) (ss : List PlazaStream)
    → map_some
        (λ (p : PlazaStream). p.wait_for)
        (get_elem? (update_at n (λ p. record p { wait_for = flag }) ss) j)
      ≡ (if leb n j && leb j n
          then map_some (λ (p : PlazaStream). flag) (get_elem? ss j)
          else map_some (λ (p : PlazaStream). p.wait_for) (get_elem? ss j))
waits-update_at n j flag [] = ground arith
waits-update_at zero zero flag (s ∷ ss) = refl
waits-update_at zero (suc j) flag (s ∷ ss) = ground arith
waits-update_at (suc n) zero flag (s ∷ ss) = ground arith
waits-update_at (suc n) (suc j) flag (s ∷ ss) = ground (arith, waits-update_at n j flag ss)

get_elem?-above : {A : Type 0} (n : ℕ) (xs : List A) → length xs ≤ n → get_elem? xs n ≡ none
get_elem?-above n [] h = refl
get_elem?-above zero (x ∷ xs) h = absurd (omega arith)
get_elem?-above (suc n) (x ∷ xs) h = get_elem?-above n xs (omega arith)

abbrev cleared : Option Bool → Option Bool
cleared = map_some (λ _. false)

waits-set_wait_for_flag :
    (n j : ℕ) (s : DataStream)
    → waits j (set_wait_for_flag false n s)
      ≡ (if ltb 0 n && (leb n j && leb j n) then cleared (waits j s) else waits j s)
unfolding set_wait_for_flag
waits-set_wait_for_flag n j s =
    ground (arith, waits-update_at n j false s.plaza_streams, get_elem?-above j s.plaza_streams)

length-set_wait_for_flag :
    (n : ℕ) (s : DataStream)
    → length (set_wait_for_flag false n s).plaza_streams ≡ length s.plaza_streams
unfolding set_wait_for_flag
length-set_wait_for_flag n s =
    ground (arith, length-update_at n (λ p. record p { wait_for = false }) s.plaza_streams)

cleared_twice : (o : Option Bool) → cleared (cleared o) ≡ cleared o
cleared_twice none = refl
cleared_twice (some b) = refl

waits-release_from :
    (rounds i j : ℕ) (s : DataStream)
    → waits j (release_from rounds i s)
      ≡ (if ltb 0 j && (leb i j && ltb j (i + rounds)) then cleared (waits j s) else waits j s)
unfolding release_from
waits-release_from zero i j s = ground arith
waits-release_from (suc rounds) i j s =
    rw
      (
        waits-release_from rounds (i + 1) j (set_wait_for_flag false i s),
        waits-set_wait_for_flag i j s,
      )
      (ground (arith, cleared_twice (waits j s)))

-- When FUTINFO is online, the loop takes the flag off every listener but the first, whose index
-- `SetWaitForFlag` does not accept: that one keeps its flag.
waits-release_all :
    (j : ℕ) (s : DataStream)
    → waits j (release_all s) ≡ (if leb j 0 then waits j s else cleared (waits j s))
waits-release_all j s =
    rw (waits-release_from (length s.plaza_streams) 0 j s)
      (ground (arith, get_elem?-above j s.plaza_streams))

-- Whichever listeners the CGate library could make, no listener of the service stream waits any
-- more after the loop.
pub release_all-init_service_streams :
    (cg : CGate) (j : ℕ)
    → waits j (release_all (init_service_streams cg new_service_stream)) ≢ some true
unfolding init_service_streams
release_all-init_service_streams cg zero =
    rw (waits-release_all zero (init_service_streams cg new_service_stream)) (λ e. ground arith)
release_all-init_service_streams cg (suc j) =
    rw (waits-release_all (suc j) (init_service_streams cg new_service_stream))
      (λ e. not_cleared (waits (suc j) (init_service_streams cg new_service_stream)) (ground arith))
