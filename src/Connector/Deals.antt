-- ===== src/Connector/Deals.antt =====
-- PlazaCallbacks.cpp: what a row of a deal stores, and when it is passed over.
use simple_cgate.Base.{
  ℕ, ◌≡◌, ◌≢◌, arith, Option, none, some, nat_eq, text_eq, map_some, ◌==◌, if◌then◌else◌, Holds,
  Holds-map,
}
use simple_cgate.Entities.Platform.{Platform}
use simple_cgate.Entities.Order.{TradeDirection, buy, sell}
use simple_cgate.Entities.Trade.{Trade}
use simple_cgate.Database.{get_order, get_trade, create_order, create_trade}
use simple_cgate.Connector.{Connector, order_for}
use simple_cgate.Connector.Rows.{UserDeal}
use simple_cgate.Connector.Trading.{user_deal_row, store_trade}
use simple_cgate.Connector.Safety.{IsGate}
use simple_cgate.Connector.Safety.Trading.{user_deal_row-Gate}

module _ {D : Type 0} where
  abbrev pub trade_of : ℕ → Connector D → Option (Trade D)
  trade_of id c = elim (get_trade id c.database) [ none ↦ none | some p ↦ c.database.heap.trades p ]

  -- What a trade says, apart from its price and its time.
  abbrev pub terms : Trade D → ℕ × (ℕ × (ℕ × TradeDirection))
  terms t = (t.id, (t.security, (t.volume, t.direction)))

module _ {D : Type 0} ⦃num : Platform D⦄ where
  stored_terms :
      (row : UserDeal) (c c' : Connector D) (sec : ℕ)
      → IsGate c
      → row.ext_id_sell ≢ row.ext_id_buy
      → get_trade row.id_deal c.database ≡ none
      → c.securities_id row.isin_id ≡ some sec
      → user_deal_row row c ≡ some (tt, c')
      → (map_some terms (trade_of row.id_deal c')
          ≡ some (row.id_deal, (sec, (row.amount, if row.ext_id_sell == 0 then buy else sell))))
        × (map_some (λ (t : Trade D). some t.order) (trade_of row.id_deal c')
            ≡ some (
                get_order
                  (if row.ext_id_buy == 0 then row.ext_id_sell else row.ext_id_buy)
                  c'.database))
  unfolding user_deal_row store_trade order_for create_order create_trade
  stored_terms row c c' sec v n g s e = ground arith

  -- A deal with two different sides, of a known instrument and not stored yet, is stored without a
  -- fault on a well-formed connector: under its number, with its instrument and amount, as a sale
  -- exactly if it names a seller's id, and with the order of the buyer's id, or of the seller's if
  -- there is no buyer's.
  pub user_deal_row-trade_of :
      (row : UserDeal) (c : Connector D) (sec : ℕ)
      → IsGate c
      → row.ext_id_sell ≢ row.ext_id_buy
      → get_trade row.id_deal c.database ≡ none
      → c.securities_id row.isin_id ≡ some sec
      → Holds
          (λ _ c'.
            (map_some terms (trade_of row.id_deal c')
              ≡ some (row.id_deal, (sec, (row.amount, if row.ext_id_sell == 0 then buy else sell))))
            × (map_some (λ (t : Trade D). some t.order) (trade_of row.id_deal c')
                ≡ some (
                    get_order
                      (if row.ext_id_buy == 0 then row.ext_id_sell else row.ext_id_buy)
                      c'.database)))
          (user_deal_row row c)
  user_deal_row-trade_of row c sec v n g s =
      Holds-map IsGate _ (user_deal_row row c) (user_deal_row-Gate row c v)
        (λ c' e w. stored_terms row c c' sec v n g s e)

  repeated :
      (row : UserDeal) (c c' : Connector D)
      → user_deal_row row c ≡ some (tt, c')
      → user_deal_row row c' ≡ some (tt, c')
  unfolding user_deal_row store_trade order_for create_order create_trade
  repeated row c c' e = ground arith

  -- A deal that is delivered again right after it was handled changes nothing: on a well-formed
  -- connector the first delivery ends without a fault, and the second leaves what the first left.
  pub user_deal_row-twice :
      (row : UserDeal) (c : Connector D)
      → IsGate c
      → Holds (λ _ c'. user_deal_row row c' ≡ some (tt, c')) (user_deal_row row c)
  user_deal_row-twice row c v =
      Holds-map IsGate _ (user_deal_row row c) (user_deal_row-Gate row c v)
        (λ c' e w. repeated row c c' e)
