-- ===== src/Program/Loading.antt =====
-- SampleBidAskStrategy.h, `LoadConfig`: what it leaves behind.
use simple_cgate.Base.{ℕ, ◌≡◌, refl, arith, Option, none, some, codes, nat_eq, text_eq, Grows-refl}
use simple_cgate.Entities.Platform.{Platform}
use simple_cgate.Database.{Database, create_security}
use simple_cgate.Database.Valid.{HeapGrows}
use simple_cgate.Database.Creates.{create_security-Makes}
use simple_cgate.Database.Grows.{create_security-HeapGrows}
use simple_cgate.Connector.Safety.{IsGate}
use simple_cgate.Strategies.Sample.{SampleBidAskStrategy, Trading, load_config}
use simple_cgate.Strategies.Balance.{IsTrading}

abbrev configured : ℕ → SampleBidAskStrategy → SampleBidAskStrategy
configured p s = record s {
  symbol = codes "RTS-9.17";
  signal_volume = 10;
  work_volume = 1;
  security = some p;
}

module _ {D : Type 0} ⦃num : Platform D⦄ where
  load_known :
      (t : Trading D) (p : ℕ)
      → t.connector.database.securities (codes "RTS-9.17") ≡ some p
      → load_config t ≡ some (tt, record t { strategy = configured p t.strategy })
  unfolding load_config
  load_known t p e = ground arith

  load_new :
      (t : Trading D)
      → t.connector.database.securities (codes "RTS-9.17") ≡ none
      → load_config t
        ≡ some (
          tt,
          record {
            strategy =
                configured (create_security (codes "RTS-9.17") t.connector.database).0 t.strategy;
            connector = record t.connector {
              database = (create_security (codes "RTS-9.17") t.connector.database).1;
            };
          },
        )
  unfolding load_config
  load_new t e = ground arith

  -- What `LoadConfig` leaves behind: a strategy that can trade, and every object that there was.
  abbrev pub Loads : Trading D → Type 0
  Loads t =
      (t' : Trading D) × (load_config t ≡ some (tt, t'))
      × IsTrading t'
      × HeapGrows t.connector.database.heap t'.connector.database.heap

  pub load_config-Loads :
      (t : Trading D) → IsGate t.connector → t.strategy.current_order ≡ none → Loads t
  load_config-Loads t v idle = go (t.connector.database.securities (codes "RTS-9.17")) refl
    where
      db : Database D
      db = t.connector.database

      made : ℕ × Database D
      made = create_security (codes "RTS-9.17") db

      grown : HeapGrows db.heap made.1.heap
      grown = create_security-HeapGrows (codes "RTS-9.17") db

      go : (o : Option ℕ) → db.securities (codes "RTS-9.17") ≡ o → Loads t
      go none e = (
        record {
          strategy = configured made.0 t.strategy;
          connector = record t.connector { database = made.1 };
        },
        load_new t e,
        record {
          gate = record {
            database_ok = (create_security-Makes (codes "RTS-9.17") db v.database_ok).0;
            linked = λ id p l. grown.securities_grow p (v.linked id p l);
          };
          configured = refl;
          security_live =
              λ q u. ground (arith, (create_security-Makes (codes "RTS-9.17") db v.database_ok).1);
          order_live = λ p u. absurd (ground (arith, idle));
        },
        grown,
      )
      go (some p) e = (
        record t { strategy = configured p t.strategy },
        load_known t p e,
        record {
          gate = v;
          configured = refl;
          security_live = λ q u. ground (arith, v.database_ok.securities_ok (codes "RTS-9.17") p e);
          order_live = λ p u. absurd (ground (arith, idle));
        },
        record {
          securities_grow = Grows-refl db.heap.securities;
          orders_grow = Grows-refl db.heap.orders;
          trades_grow = Grows-refl db.heap.trades;
          positions_grow = Grows-refl db.heap.positions;
          strategies_grow = Grows-refl db.heap.strategies;
        },
      )
