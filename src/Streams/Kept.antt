-- ===== src/Streams/Kept.antt =====
-- DataStream.cpp: the states of the listeners, and the loop over the wait flags.
use simple_cgate.Base.{ℕ, zero, suc, ◌+◌, ◌≡◌, refl, ap, ◌∙◌, arith, Bool, false, List, [], ◌∷◌}
use simple_cgate.Streams.{
  PlazaStream, DataStream, release_all, release_from, set_wait_for_flag, update_at,
}
use simple_cgate.Streams.States.{ListenerState}

abbrev pub states : List PlazaStream → List ListenerState
states [] = []
states (s ∷ ss) = s.state ∷ states ss

states-update_at :
    (n : ℕ) (flag : Bool) (ss : List PlazaStream)
    → states (update_at n (λ p. record p { wait_for = flag }) ss) ≡ states ss
states-update_at n flag [] = ground arith
states-update_at zero flag (s ∷ ss) = refl
states-update_at (suc n) flag (s ∷ ss) = ap (λ r. s.state ∷ r) (states-update_at n flag ss)

states-set_wait_for_flag :
    (flag : Bool) (n : ℕ) (s : DataStream)
    → states (set_wait_for_flag flag n s).plaza_streams ≡ states s.plaza_streams
unfolding set_wait_for_flag
states-set_wait_for_flag flag n s = ground (arith, states-update_at n flag s.plaza_streams)

states-release_from :
    (rounds i : ℕ) (s : DataStream)
    → states (release_from rounds i s).plaza_streams ≡ states s.plaza_streams
unfolding release_from
states-release_from zero i s = refl
states-release_from (suc rounds) i s =
    states-release_from rounds (i + 1) (set_wait_for_flag false i s)
    ∙ states-set_wait_for_flag false i s

pub states-release_all :
    (s : DataStream) → states (release_all s).plaza_streams ≡ states s.plaza_streams
states-release_all s = states-release_from _ 0 s
