-- ===== src/Entities/Trade.antt =====
-- Trade.h and Trade.cpp: a deal of the user's.
use simple_cgate.Base.{ℕ}
use simple_cgate.Base.Words.{add_32}
use simple_cgate.Entities.Platform.{Platform}
use simple_cgate.Entities.DateTime.{DateTime, no_time}
use simple_cgate.Entities.Order.{TradeDirection, buy}

pub record Trade (D : Type 0) : Type 0 where
  pub global_id : ℕ  -- of the base class Entity
  pub security : ℕ
  pub direction : TradeDirection
  pub price : D
  pub volume : ℕ
  pub id : ℕ
  pub order : ℕ
  pub time : DateTime

module _ {D : Type 0} where
  abbrev pub set_global_id : ℕ → Trade D → Trade D
  set_global_id id t = record t { global_id = id }

  abbrev pub set_price : D → Trade D → Trade D
  set_price price t = record t { price = price }

  abbrev pub set_time : DateTime → Trade D → Trade D
  set_time time t = record t { time = time }

  abbrev pub set_volume : ℕ → Trade D → Trade D
  set_volume volume t = record t { volume = volume }

  abbrev pub set_id : ℕ → Trade D → Trade D
  set_id id t = record t { id = id }

  abbrev pub set_direction : TradeDirection → Trade D → Trade D
  set_direction d t = record t { direction = d }

module _ {D : Type 0} ⦃num : Platform D⦄ where
  abbrev pub new_trade : ℕ → ℕ → ℕ → Trade D
  new_trade id sec ord = record {
    global_id = 0;
    security = sec;
    direction = buy;
    price = num.zero_double;
    volume = 0;
    id = id;
    order = ord;
    time = no_time;
  }

  -- `AddTrade`: the volumes add up, and the price is the average weighted by volume.
  abbrev pub add_trade : Trade D → Trade D → Trade D
  add_trade add t = record t {
    price =
        num.div_double
          (num.add_double (num.mul_double t.price (num.double_of_int t.volume))
            (num.mul_double add.price (num.double_of_int add.volume)))
          (num.double_of_int (add_32 t.volume add.volume));
    volume = add_32 t.volume add.volume;
  }
