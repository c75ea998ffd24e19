-- ===== src/Strategies/Subscribers.antt =====
-- StrategyManager.cpp: whose quotes a strategy is told of.
use simple_cgate.Base.{
  ℕ, suc, ◌≡◌, refl, sym, ap, ◌∙◌, arith, Bool, true, false, some, List, [], ◌∷◌, ◌++◌, is_some,
  Holds, replicate, map_some, ◌==◌, nat_eq, if◌then◌else◌,
}
use mathlib.Core.List.{append-nil, append_assoc}
use simple_cgate.Entities.Security.{Security}
use simple_cgate.Database
use simple_cgate.Database.{Database, get_strategy_by_global_id}
use simple_cgate.Events
use simple_cgate.Events.{event, EventType}
use simple_cgate.Events.Delivery.{times}
use simple_cgate.Strategies.{
  StrategyManager, World, subscribe, subscribe_all, subscribers, add_strategy,
}

-- The addresses lead to securities that have these global ids.
abbrev pub Ids : {D : Type 0} → List ℕ → List ℕ → Database D → Type 0
Ids [] [] db = Unit
Ids [] (g ∷ gs) db = ⊥
Ids (p ∷ ps) [] db = ⊥
Ids {D} (p ∷ ps) (g ∷ gs) db =
    (map_some (λ (s : Security D). s.global_id) (db.heap.securities p) ≡ some g) × Ids ps gs db

one : Bool → ℕ → List ℕ
one b str = if b then str ∷ [] else []

subscribers-subscribe :
    (id str g : ℕ) (m : StrategyManager)
    → subscribers g (subscribe id str m) ≡ subscribers g m ++ one (id == g) str
unfolding one
subscribers-subscribe id str g m = ground (arith, append-nil (subscribers g m))

one-replicate :
    (l : List ℕ) (b : Bool) (n str : ℕ)
    → (l ++ one b str) ++ replicate n str ≡ l ++ replicate (if b then suc n else n) str
unfolding one
one-replicate l true n str = append_assoc l (str ∷ []) (replicate n str)
one-replicate l false n str = rw (append-nil l) refl

-- After the calls, a strategy is told of an instrument's quotes once more for each time that it named
-- the instrument, and the others are told as before.
abbrev pub Subscribed : List ℕ → ℕ → StrategyManager → StrategyManager → Type 0
Subscribed gs str m m' =
    ((g : ℕ) → subscribers g m' ≡ subscribers g m ++ replicate (times g gs) str)
    × (m'.strategies ≡ m.strategies)

Subscribed-cons :
    (g str : ℕ) (gs : List ℕ) (m m' : StrategyManager)
    → Subscribed gs str (subscribe g str m) m'
    → Subscribed (g ∷ gs) str m m'
Subscribed-cons g str gs m m' (told, same) = (
  λ j.
      told j
      ∙ ap (λ l. l ++ replicate (times j gs) str) (subscribers-subscribe g str j m)
      ∙ one-replicate (subscribers j m) (g == j) (times j gs) str,
  same ∙ ground arith,
)

found_by_id :
    {D : Type 0} (str : ℕ) (db : Database D)
    → get_strategy_by_global_id db.global_id (Database.add_strategy str db) ≡ some str
unfolding Database.add_strategy
found_by_id str db = ground arith

module _ {X D : Type 0} where
  subscribe_all_lem :
      (p g : ℕ) (ps : List ℕ) (str : ℕ) (m : StrategyManager) (w : World X D)
      → map_some (λ (s : Security D). s.global_id) (w.connector.database.heap.securities p) ≡ some g
      → subscribe_all (p ∷ ps) str m w ≡ subscribe_all ps str (subscribe g str m) w
  unfolding subscribe_all
  subscribe_all_lem p g ps str m w e = ground arith

  pub subscribe_all-Subscribed :
      (secs gs : List ℕ) (str : ℕ) (m : StrategyManager) (w : World X D)
      → Ids secs gs w.connector.database
      → (m' : StrategyManager) × (subscribe_all secs str m w ≡ some (m', w))
        × Subscribed gs str m m'
  unfolding subscribe_all
  subscribe_all-Subscribed [] [] str m w ids = (m, refl, ((λ g. sym (append-nil _)), refl))
  subscribe_all-Subscribed [] (g ∷ gs) str m w ids = absurd ids
  subscribe_all-Subscribed (p ∷ ps) [] str m w ids = absurd ids
  subscribe_all-Subscribed (p ∷ ps) (g ∷ gs) str m w (e, ids) =
      let (m', e', told) = subscribe_all-Subscribed ps gs str (subscribe g str m) w ids in
      (m', subscribe_all_lem p g ps str m w e ∙ e', Subscribed-cons g str gs m m' told)

  abbrev pub with_strategy : ℕ → World X D → World X D
  with_strategy str w = record w {
    connector = record w.connector { database = Database.add_strategy str w.connector.database };
  }

  abbrev pub announced : ℕ → World X D → World X D
  announced g w = record w {
    connector = record w.connector {
      event_manager = Events.add_event EventType.new_strategy g w.connector.event_manager;
    };
  }

  pub add_strategy_lem :
      (str : ℕ) (secs : List ℕ) (m m' : StrategyManager) (w : World X D)
      → is_some (w.connector.database.heap.strategies str) ≡ true
      → subscribe_all secs str
          (record m { strategies = m.strategies ++ str ∷ [] })
          (with_strategy str w)
        ≡ some (m', with_strategy str w)
      → add_strategy str secs m w
        ≡ some (m', announced w.connector.database.global_id (with_strategy str w))
  unfolding add_strategy
  add_strategy_lem str secs m m' w live e = ground arith

  -- The manager and the world after a strategy was registered for the instruments with these ids.
  abbrev pub Registered :
      ℕ → List ℕ → StrategyManager → World X D → StrategyManager → World X D → Type 0
  Registered str gs m w m' w' =
      ((g : ℕ) → subscribers g m' ≡ subscribers g m ++ replicate (times g gs) str)
      × (m'.strategies ≡ m.strategies ++ str ∷ [])
      × (get_strategy_by_global_id w.connector.database.global_id w'.connector.database ≡ some str)
      × (w'.connector.event_manager
          ≡ Events.add_event EventType.new_strategy w.connector.database.global_id
              w.connector.event_manager)

  -- To register a strategy that exists, with the securities that it names, is no fault. From then on it
  -- is told of each quote of an instrument once more for each time that it named it, behind those who
  -- were told before, and of no other's; it is the last of the strategies; it is found under the global
  -- id that was next, and this id is what is dispatched.
  pub add_strategy-Subscribed :
      (str : ℕ) (secs gs : List ℕ) (m : StrategyManager) (w : World X D)
      → Ids secs gs w.connector.database
      → is_some (w.connector.database.heap.strategies str) ≡ true
      → Holds (Registered str gs m w) (add_strategy str secs m w)
  unfolding Database.add_strategy
  add_strategy-Subscribed str secs gs m w ids live =
      let (m', e, told) =
        subscribe_all-Subscribed secs gs str (record m { strategies = m.strategies ++ str ∷ [] })
          (with_strategy str w) (kept secs gs ids) in
      rw (add_strategy_lem str secs m m' w live e)
        (told.0, told.1, found_by_id str w.connector.database, refl)
    where
      kept :
          (ps gs : List ℕ)
          → Ids ps gs w.connector.database
          → Ids ps gs (Database.add_strategy str w.connector.database)
      kept [] [] u = u
      kept [] (g ∷ gs) u = u
      kept (p ∷ ps) [] u = u
      kept (p ∷ ps) (g ∷ gs) (u, us) = (u, kept ps gs us)
