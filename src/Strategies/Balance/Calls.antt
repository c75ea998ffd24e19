-- ===== src/Strategies/Balance/Calls.antt =====
-- SampleBidAskStrategy.h: any sequence of calls of the handlers.
use simple_cgate.Base.{
  done, ◌>>◌, >>=-Holds, Holds-map, ℕ, ◌≡◌, refl, arith, some, List, [], ◌∷◌, Action, nat_eq,
  text_eq,
}
use simple_cgate.Entities.Platform.{Platform}
use simple_cgate.Strategies.Sample.{Trading, on_order_change, on_new_trade, on_quotes_change}
use simple_cgate.Strategies.Balance.Placing.{on_quotes_change-Keeps}
use simple_cgate.Strategies.Balance.Changes.{order_change-Keeps, new_trade-Keeps, NamesTrade}
use simple_cgate.Strategies.Balance.{Balanced, IsTrading, Keeps}

-- A call of a handler; of `Now()`, the handler of an order's change reads the minute.
pub data Call : Type 0 where
  quotes_change : Call
  order_change : ℕ → ℕ → Call
  new_trade : ℕ → Call

module _ {D : Type 0} ⦃num : Platform D⦄ where
  unfoldable pub handle : Call → Action (Trading D) (Unit {0})
  unfolding on_quotes_change on_order_change on_new_trade
  handle quotes_change = on_quotes_change
  handle (order_change now_minute id) = on_order_change now_minute id
  handle (new_trade id) = on_new_trade id

  -- What a call asks for: a deal's event names a deal.
  abbrev pub IsNamed : Call → Trading D → Type 0
  IsNamed (new_trade id) t = NamesTrade id t
  IsNamed _ t = Unit

  pub handle-Keeps : (h : Call) (t : Trading D) → IsNamed h t → IsTrading t → Keeps t (handle h t)
  unfolding handle
  handle-Keeps quotes_change t n v = on_quotes_change-Keeps t v
  handle-Keeps (order_change now_minute id) t n v = order_change-Keeps now_minute id t v
  handle-Keeps (new_trade id) t n v = new_trade-Keeps id t n v

  unfoldable pub handle_all : List Call → Action (Trading D) (Unit {0})
  handle_all [] = done
  handle_all (h ∷ hs) = handle h >> handle_all hs

  -- Each call of the list finds what it names in the state in which it is made.
  abbrev pub AreNamed : List Call → Trading D → Type 0
  AreNamed [] t = Unit
  AreNamed (h ∷ hs) t =
      IsNamed h t × ((t' : Trading D) → handle h t ≡ some (tt, t') → AreNamed hs t')

  Balanced-trans : (a b c : Trading D) → Balanced a b → Balanced b c → Balanced a c
  Balanced-trans a b c h k p = omega (arith, h p, k p)

  -- From a strategy with an instrument on a well-formed connector on, no sequence of calls of its
  -- handlers faults in which each event of a deal names a deal. Over it the queue gets as many
  -- cancellations of each order as it gets placements of it, but for the order that is held at the end,
  -- which gets one less, and the one that was held at the beginning, which gets one more.
  pub handle_all-Keeps :
      (hs : List Call) (t : Trading D) → AreNamed hs t → IsTrading t → Keeps t (handle_all hs t)
  unfolding handle_all
  handle_all-Keeps [] t n v = (v, λ p. refl)
  handle_all-Keeps (h ∷ hs) t n v =
      >>=-Holds (λ _ t'. (IsTrading t' × Balanced t t') × AreNamed hs t')
        (λ _ t'. IsTrading t' × Balanced t t') (handle h) (λ _. handle_all hs) t
        (Holds-map (λ t'. IsTrading t' × Balanced t t')
          (λ t'. (IsTrading t' × Balanced t t') × AreNamed hs t') (handle h t)
          (handle-Keeps h t n.0 v) (λ t' e k. (k, n.1 t' e)))
        (λ _ t' p.
          Holds-map (λ t''. IsTrading t'' × Balanced t' t'') (λ t''. IsTrading t'' × Balanced t t'')
            (handle_all hs t') (handle_all-Keeps hs t' p.1 p.0.0)
            (λ t'' e r. (r.0, Balanced-trans t t' t'' p.0.1 r.1)))
