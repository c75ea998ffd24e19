-- ===== src/Connector/Instruments.antt =====
-- PlazaCallbacks.cpp: what the rows of instruments and of positions leave in the database.
use simple_cgate.Base.{
  ℕ, ◌≡◌, refl, arith, Bool, false, Option, none, some, nat_eq, text_eq, text_beq_iff, map_some,
  Text, ◌==◌, if◌then◌else◌, Holds, Holds-map,
}
use simple_cgate.Base.Words.{lt_i32}
use simple_cgate.Entities.Platform.{Platform}
use simple_cgate.Entities.Security.{Security, SecurityType}
use simple_cgate.Entities.Position.{Position}
use simple_cgate.Database.{get_security, get_position, create_security, create_position}
use simple_cgate.Connector.{Connector, convert_to_double, position_for}
use simple_cgate.Connector.Rows.{FutSessContents, PositionRow}
use simple_cgate.Connector.Market.{session_row, security_for, link_security, position_row}
use simple_cgate.Connector.Safety.{IsGate}
use simple_cgate.Connector.Safety.Market.{session_row-Gate, position_row-Gate}

-- How an instrument is listed.
pub record Listing (D : Type 0) : Type 0 where
  pub isin : Text
  pub decimals : ℕ
  pub is_trading_state : Bool
  pub type : SecurityType
  pub last_price : D
  pub min_price : D
  pub max_price : D
  pub step_size : D
  pub step_price : D
  pub margin_buy : D
  pub margin_sell : D

module _ {D : Type 0} where
  abbrev pub security_of : Text → Connector D → Option (Security D)
  security_of name c = elim (get_security name c.database) [
    | none ↦ none
    | some p ↦ c.database.heap.securities p
  ]

  abbrev pub position_of : Text → Connector D → Option (Position D)
  position_of name c = elim (get_position name c.database) [
    | none ↦ none
    | some p ↦ c.database.heap.positions p
  ]

  abbrev pub amounts : Position D → ℕ × (ℕ × (ℕ × ℕ))
  amounts p = (p.open_amount, (p.buys_amount, (p.sells_amount, p.current_amount)))

  abbrev pub listing : Security D → Listing D
  listing s = record {
    isin = s.isin;
    decimals = s.decimals;
    is_trading_state = s.is_trading_state;
    type = s.type;
    last_price = s.last_price;
    min_price = s.min_price;
    max_price = s.max_price;
    step_size = s.step_size;
    step_price = s.step_price;
    margin_buy = s.margin_buy;
    margin_sell = s.margin_sell;
  }

module _ {D : Type 0} ⦃num : Platform D⦄ where
  -- The listing that a row asks for: the prices lie between the limits around the last one.
  abbrev pub listing_in : FutSessContents → Listing D
  listing_in row = record {
    isin = row.isin;
    decimals = row.roundto;
    is_trading_state = row.state == 1;
    type = if row.multileg_type == 3 then SecurityType.spread else SecurityType.futures;
    last_price = convert_to_double row.last_cl_quote;
    min_price =
        num.sub_double (convert_to_double row.last_cl_quote) (convert_to_double row.limit_down);
    max_price =
        num.add_double (convert_to_double row.last_cl_quote) (convert_to_double row.limit_up);
    step_size = convert_to_double row.min_step;
    step_price = convert_to_double row.step_price;
    margin_buy = convert_to_double row.buy_deposit;
    margin_sell = convert_to_double row.sell_deposit;
  }

  -- What the row of an instrument does to the session, the links of numbers and the listing.
  pub record IsListed (row : FutSessContents) (c c' : Connector D) : Type 0 where
    pub session : c'.last_sess_id ≡ row.sess_id
    pub linked : c'.securities_id row.isin_id ≡ (elim (c.securities_id row.isin_id) [
      | none ↦ get_security row.isin c'.database
      | some p ↦ some p
    ])
    pub others_linked :
        (id : ℕ) → (row.isin_id == id) ≡ false → c'.securities_id id ≡ c.securities_id id
    pub listed : map_some listing (security_of row.isin c') ≡ some (listing_in row)

  listed_lem :
      (row : FutSessContents) (c c' : Connector D)
      → IsGate c
      → lt_i32 row.sess_id c.last_sess_id ≡ false
      → session_row row c ≡ some (tt, c')
      → IsListed row c c'
  unfolding session_row security_for link_security create_security
  listed_lem row c c' v n e =
      go (get_security row.isin c.database) refl (c.securities_id row.isin_id) refl
    where
      go :
          (o : Option ℕ)
          → get_security row.isin c.database ≡ o
          → (l : Option ℕ) → c.securities_id row.isin_id ≡ l
          → IsListed row c c'
      go none u l w = record {
        session = ground (arith, text_beq_iff row.isin row.isin);
        linked = ground (arith, text_beq_iff row.isin row.isin);
        others_linked = λ id d. ground (arith, text_beq_iff row.isin row.isin);
        listed = ground (arith, text_beq_iff row.isin row.isin);
      }
      go (some p) u l w = record {
        session = ground (arith, text_beq_iff row.isin row.isin);
        linked = ground (arith, text_beq_iff row.isin row.isin);
        others_linked = λ id d. ground (arith, text_beq_iff row.isin row.isin);
        listed =
            ground
              (arith, text_beq_iff row.isin row.isin, v.database_ok.securities_ok row.isin p u);
      }

  held :
      (row : PositionRow) (c c' : Connector D) (sec : ℕ) (s : Security D)
      → IsGate c
      → c.securities_id row.isin_id ≡ some sec
      → c.database.heap.securities sec ≡ some s
      → position_row row c ≡ some (tt, c')
      → map_some amounts (position_of s.isin c')
        ≡ some (row.open_qty, (row.buys_qty, (row.sells_qty, row.pos)))
  unfolding position_row position_for create_position
  held row c c' sec s v l h e = go (get_position s.isin c.database) refl
    where
      go :
          (o : Option ℕ)
          → get_position s.isin c.database ≡ o
          → map_some amounts (position_of s.isin c')
            ≡ some (row.open_qty, (row.buys_qty, (row.sells_qty, row.pos)))
      go none u = ground (arith, text_beq_iff s.isin s.isin)
      go (some p) u =
          ground (arith, text_beq_iff s.isin s.isin, v.database_ok.positions_ok s.isin p u)

  -- On a well-formed connector the row of an instrument whose session is not older than the known one
  -- is handled without a fault: its session is then the known one; its number leads to the instrument
  -- under its name, unless the number led to an instrument before, to which it then still leads; other
  -- numbers lead where they led; and the instrument under the name has the name, the decimals, the trading
  -- state, the type, the last price, the limits around it, the steps and the deposits of the row.
  pub session_row-listing :
      (row : FutSessContents) (c : Connector D)
      → IsGate c
      → lt_i32 row.sess_id c.last_sess_id ≡ false
      → Holds (λ _ c'. IsListed row c c') (session_row row c)
  session_row-listing row c v n =
      Holds-map IsGate _ (session_row row c) (session_row-Gate row c v)
        (λ c' e w. listed_lem row c c' v n e)

  -- On a well-formed connector the row of a position in a known instrument is handled without a
  -- fault, and the position under the instrument's name then has the four amounts of the row, whether
  -- it was there or not.
  pub position_row-amounts :
      (row : PositionRow) (c : Connector D) (sec : ℕ) (s : Security D)
      → IsGate c
      → c.securities_id row.isin_id ≡ some sec
      → c.database.heap.securities sec ≡ some s
      → Holds
          (λ _ c'.
            map_some amounts (position_of s.isin c')
            ≡ some (row.open_qty, (row.buys_qty, (row.sells_qty, row.pos))))
          (position_row row c)
  position_row-amounts row c sec s v l h =
      Holds-map IsGate _ (position_row row c) (position_row-Gate row c v)
        (λ c' e w. held row c c' sec s v l h e)
