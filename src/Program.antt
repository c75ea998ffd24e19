-- ===== src/Program.antt =====
-- SimpleCGate.cpp, `main`: the strategy of the sample is made, configured and registered. Its handlers
-- work on what the manager calls the world: the strategy's own fields, and the connector.
pub mod Objects
pub mod Loading
pub mod Start
use simple_cgate.Base.{
  ℕ, ◌+◌, Option, none, some, List, [], ◌∷◌, codes, put, map_some, Action, call, deref, ◌>>=◌, ◌>>◌,
  nat_eq,
}
use simple_cgate.Entities.Platform.{Platform}
use simple_cgate.Entities.Strategy.{new_strategy}
use simple_cgate.Database.{Database}
use simple_cgate.Strategies.{StrategyManager, World, add_strategy}
use simple_cgate.Strategies.Sample.{SampleBidAskStrategy, Trading, new_sample_strategy, load_config}

-- `make_shared`. The two volumes have no initial value: they are what the memory holds.
abbrev pub made_strategy : SampleBidAskStrategy → SampleBidAskStrategy
made_strategy s = new_sample_strategy s.signal_volume s.work_volume

module _ {D : Type 0} where
  abbrev pub to_trading : World SampleBidAskStrategy D → Trading D
  to_trading w = record { strategy = w.own; connector = w.connector }

  abbrev pub in_trading :
      {A : Type 0} → Action (Trading D) A → Action (World SampleBidAskStrategy D) A
  in_trading f w =
      map_some (λ (a, t). (a, record w { own = t.strategy; connector = t.connector }))
        (f (to_trading w))

  -- The part of the new object that the base class has.
  abbrev pub alloc_strategy : Database D → Database D
  alloc_strategy db = record db {
    heap = record db.heap {
      next = db.heap.next + 1;
      strategies = put db.heap.next (new_strategy (codes "BidAskVolume")) db.heap.strategies;
    };
  }

  abbrev pub make_strategy : Action (World SampleBidAskStrategy D) ℕ
  make_strategy = call λ w. (
    w.connector.database.heap.next,
    record w {
      own = made_strategy w.own;
      connector = record w.connector { database = alloc_strategy w.connector.database };
    },
  )

module _ {D : Type 0} ⦃num : Platform D⦄ where
  -- The lines of `main` from `make_shared` to `AddStrategy`.
  unfoldable pub set_up : StrategyManager → Action (World SampleBidAskStrategy D) StrategyManager
  unfolding load_config add_strategy
  set_up m = do
    str ← make_strategy
    in_trading load_config
    sec ← deref (λ (w : World SampleBidAskStrategy D). w.own.security)
    add_strategy str (sec ∷ []) m
