-- ===== src/Entities/Position.antt =====
-- Position.h and Position.cpp: the position in one security.
use simple_cgate.Base.{ℕ, Text, codes}
use simple_cgate.Entities.Platform.{Platform}

pub record Position (D : Type 0) : Type 0 where
  pub global_id : ℕ  -- of the base class Entity
  pub client_code : Text
  pub open_amount : ℕ
  pub buys_amount : ℕ
  pub sells_amount : ℕ
  pub current_amount : ℕ
  pub price : D
  pub variation_margin : D
  pub security : ℕ

module _ {D : Type 0} where
  abbrev pub set_global_id : ℕ → Position D → Position D
  set_global_id id p = record p { global_id = id }

  abbrev pub set_variation_margin : D → Position D → Position D
  set_variation_margin vm p = record p { variation_margin = vm }

  abbrev pub fill : ℕ → ℕ → ℕ → ℕ → D → Position D → Position D
  fill open_qty buys sells pos price p = record p {
    open_amount = open_qty;
    buys_amount = buys;
    sells_amount = sells;
    current_amount = pos;
    price = price;
  }

  -- `Fill` from another position; its security and its global id stay.
  abbrev pub fill_from : Position D → Position D → Position D
  fill_from ps p = record p {
    open_amount = ps.open_amount;
    buys_amount = ps.buys_amount;
    sells_amount = ps.sells_amount;
    current_amount = ps.current_amount;
    price = ps.price;
    client_code = ps.client_code;
    variation_margin = ps.variation_margin;
  }

module _ {D : Type 0} ⦃num : Platform D⦄ where
  abbrev pub new_position : ℕ → Position D
  new_position sec = record {
    global_id = 0;
    client_code = codes "none";
    open_amount = 0;
    buys_amount = 0;
    sells_amount = 0;
    current_amount = 0;
    price = num.zero_double;
    variation_margin = num.zero_double;
    security = sec;
  }

  abbrev pub new_client_position : ℕ → Text → Position D
  new_client_position sec client = record (new_position sec) { client_code = client }
