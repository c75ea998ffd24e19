-- ===== src/Program/Start.antt =====
-- SimpleCGate.cpp, `main`: the strategy once it is set up.
use simple_cgate.Base.{
  ℕ, ◌≡◌, refl, ap, arith, true, Option, none, some, [], ◌∷◌, ◌++◌, map_some, is_some, nat_eq,
  text_eq, Holds, replicate,
}
use simple_cgate.Entities.Platform.{Platform}
use simple_cgate.Entities.Security.{Security}
use simple_cgate.Events.Delivery.{times}
use simple_cgate.Database
use simple_cgate.Database.{Database, strategy, create_security, get_security}
use simple_cgate.Database.Valid.{HeapGrows}
use simple_cgate.Connector.Safety.{IsGate}
use simple_cgate.Strategies.{StrategyManager, World, add_strategy, subscribers}
use simple_cgate.Strategies.Subscribers.{subscribe_all-Subscribed, add_strategy_lem, with_strategy}
use simple_cgate.Strategies.Sample.{SampleBidAskStrategy, Trading, load_config}
use simple_cgate.Strategies.Balance.{IsTrading}
use simple_cgate.Program.Objects.{alloc_strategy-IsValid, add_strategy-IsValid}
use simple_cgate.Program.Loading.{load_config-Loads}
use simple_cgate.Program.{made_strategy, to_trading, alloc_strategy, set_up}

module _ {D : Type 0} ⦃num : Platform D⦄ where
  told_once :
      (m m' : StrategyManager) (str : ℕ) (h : ℕ → Option (Security D)) (o : Option ℕ) (p q : ℕ)
      (s x : Security D)
      → o ≡ some p
      → o ≡ some q
      → h p ≡ some s
      → h q ≡ some x
      → ((g : ℕ) → subscribers g m' ≡ subscribers g m ++ replicate (times g (s.global_id ∷ [])) str)
      → subscribers x.global_id m' ≡ subscribers x.global_id m ++ str ∷ []
  told_once m m' str h o p q s x e e' u u' told =
      rw (same_security) (ground (arith, told s.global_id))
    where
      same_security : x ≡ s
      same_security = ground arith

  -- The strategy, once it is set up.
  pub record IsSetUp (m : StrategyManager) (w : World SampleBidAskStrategy D) (m' : StrategyManager)
      (w' : World SampleBidAskStrategy D) : Type 0 where
    pub trades : IsTrading (to_trading w')
    pub registered : m'.strategies ≡ m.strategies ++ w.connector.database.heap.next ∷ []
    pub subscribed :
        (p : ℕ) (s : Security D)
        → w'.own.security ≡ some p
        → w'.connector.database.heap.securities p ≡ some s
        → subscribers s.global_id m'
          ≡ subscribers s.global_id m ++ w.connector.database.heap.next ∷ []

  set_up_lem :
      (m m' : StrategyManager) (w w' : World SampleBidAskStrategy D) (t : Trading D) (p : ℕ)
      → load_config (record {
        strategy = made_strategy w.own;
        connector = record w.connector { database = alloc_strategy w.connector.database };
      })
        ≡ some (tt, t)
      → t.strategy.security ≡ some p
      → add_strategy w.connector.database.heap.next
          (p ∷ [])
          m
          (record w { own = t.strategy; connector = t.connector })
        ≡ some (m', w')
      → set_up m w ≡ some (m', w')
  unfolding set_up
  set_up_lem m m' w w' t p e e' e'' = ground arith

  module _ (m : StrategyManager) (w : World SampleBidAskStrategy D) where
    str : ℕ
    str = w.connector.database.heap.next

    abbrev loading : Trading D
    loading = record {
      strategy = made_strategy w.own;
      connector = record w.connector { database = alloc_strategy w.connector.database };
    }

    register :
        (t : Trading D) (p : ℕ) (s : Security D)
        → load_config loading ≡ some (tt, t)
        → IsTrading t
        → is_some (t.connector.database.heap.strategies w.connector.database.heap.next) ≡ true
        → t.strategy.security ≡ some p
        → t.connector.database.heap.securities p ≡ some s
        → Holds (IsSetUp m w) (set_up m w)
    unfolding Database.add_strategy str
    register t p s e v live named found =
        let w2 = record w { own = t.strategy; connector = t.connector } in
        let (m', e', told) =
          subscribe_all-Subscribed (p ∷ []) (s.global_id ∷ []) str
            (record m { strategies = m.strategies ++ str ∷ [] }) (with_strategy str w2)
            (ap (map_some (λ x. x.global_id)) found, tt) in
        rw (set_up_lem m m' w _ t p e named (add_strategy_lem str (p ∷ []) m m' w2 live e'))
          (record {
            trades = record {
              gate = record {
                database_ok = add_strategy-IsValid str t.connector.database live v.gate.database_ok;
                linked = v.gate.linked;
              };
              configured = v.configured;
              security_live = v.security_live;
              order_live = v.order_live;
            };
            registered = told.1;
            subscribed = λ q x u u'.
                told_once m m' str t.connector.database.heap.securities t.strategy.security p q s x
                  named u found u' told.0;
          })

    -- On a well-formed connector the set-up of the sample strategy ends without a fault. The strategy can
    -- trade then: its instrument is an object of the connector's well-formed database. It is the last of
    -- the manager's strategies, and is told of each quote of its instrument once more, behind those who
    -- were told before.
    pub set_up-IsSetUp : IsGate w.connector → Holds (IsSetUp m w) (set_up m w)
    set_up-IsSetUp v =
        let (t, e, trading, grown) = load_config-Loads loading started refl in
        go t e trading grown t.strategy.security refl trading.configured
      where
        db : Database D
        db = w.connector.database

        started : IsGate loading.connector
        started = record {
          database_ok = alloc_strategy-IsValid db v.database_ok;
          linked = v.linked;
        }

        go :
            (t : Trading D)
            → load_config loading ≡ some (tt, t)
            → IsTrading t
            → HeapGrows (alloc_strategy db).heap t.connector.database.heap
            → (o : Option ℕ) → t.strategy.security ≡ o
            → is_some o ≡ true
            → Holds (IsSetUp m w) (set_up m w)
        go t e trading grown none named ok = absurd (ground arith)
        go t e trading grown (some p) named ok =
            at (t.connector.database.heap.securities p) refl (trading.security_live p named)
          where
            at :
                (o : Option (Security D))
                → t.connector.database.heap.securities p ≡ o
                → is_some (t.connector.database.heap.securities p) ≡ true
                → Holds (IsSetUp m w) (set_up m w)
            at none found live = absurd (ground arith)
            at (some s) found live =
                register t p s e trading (grown.strategies_grow db.heap.next (ground arith)) named
                  found
