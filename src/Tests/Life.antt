-- ===== src/Tests/Life.antt =====
-- The theorems on the connector's configuration and life, and on the thread of a consumer.
use simple_cgate.Base.{ℕ, ◌≡◌, refl, true, false, some, List, [], ◌∷◌, Holds, nat_eq, ◌⊎◌}
use simple_cgate.Events.{EventType, event, command, CommandType, Command}
use simple_cgate.Events.Thread.{start, later, notified, new_worker, worker_notify, accounted}
use simple_cgate.Events.Thread.Order.{Finishes, Reach-received}
use simple_cgate.Connector.Setup.{init_config, config_file, connection_string_of}
use simple_cgate.Connector.Setup.RoundTrip.{init_config-config_file}
use simple_cgate.Connector.{Connector}
use simple_cgate.Streams.{DataStream, new_service_stream}
use simple_cgate.Connector.Life.{LocalTime, disconnect}
use simple_cgate.Connector.Life.Coupled.{IsCoupled, disconnected, disconnect-disconnected}
use simple_cgate.Connector.Life.Steps.{
  LifeStep, consume, tick, enable, life_run, Coupled, life_run-Coupled,
}
use simple_cgate.Tests.{
  blank_manager, able, seen, drained, able-IsAble, first-IsCoupled, millionths, first, config,
}

init_config-config_file_example :
    init_config (config_file config) first
    ≡ some (
      true,
      record first {
        config = config;
        connection_string = connection_string_of config first.app_id;
      },
    )
init_config-config_file_example = init_config-config_file config first (record {
  broker_line = (refl, (refl, (refl, (refl, tt))));
  client_line = (refl, (refl, (refl, tt)));
  address_line = (refl, (refl, (refl, (refl, (refl, (refl, (refl, (refl, (refl, tt)))))))));
  port_line = (refl, (refl, (refl, (refl, tt))));
})

abbrev connecting : Command
connecting = record { type = CommandType.command_connect; id = 0; value = 0 }

abbrev sunday : LocalTime
sunday = record { wday = 0; hour = 12; minute = 0 }

abbrev disconnecting : Command
disconnecting = record { type = CommandType.command_disconnect; id = 0; value = 0 }

-- It connects and disconnects, connects again, and is then closed by the clock.
abbrev week : List LifeStep
week =
    consume seen (command connecting)
    ∷ consume drained (command disconnecting)
    ∷ consume seen (command connecting)
    ∷ enable
    ∷ tick seen sunday
    ∷ []

life_run-Coupled_example : Holds Coupled (life_run able week first)
life_run-Coupled_example = life_run-Coupled able week first able-IsAble refl first-IsCoupled

abbrev running : DataStream
running = record new_service_stream { exit = false; has_thread = true }

abbrev online : Connector ℕ
online = record first {
  is_connected = true;
  service_stream = running;
  order_stream = running;
  common_stream = running;
  transaction_mgr = record blank_manager { exit = false };
}

online-IsCoupled : IsCoupled online
online-IsCoupled = record {
  service_runs = record { flagged = refl; threaded = refl };
  order_runs = record { flagged = refl; threaded = refl };
  common_runs = record { flagged = refl; threaded = refl };
  publisher_runs = refl;
  idle = refl;
}

-- The publisher's thread empties the queue, which `Stop` put an entry into.
disconnect-disconnected_example :
    disconnect able drained online ≡ some (tt, disconnected drained online)
disconnect-disconnected_example = disconnect-disconnected able drained online online-IsCoupled refl

Reach-received_example :
    ((event EventType.connect 0 ∷ [])
      ≡ accounted (worker_notify (event EventType.connect 0) new_worker))
    × ((false ≡ true)
        ⊎ Finishes
            (worker_notify (event EventType.connect 0) new_worker)
            (event EventType.connect 0 ∷ []))
Reach-received_example = Reach-received (later start (notified (event EventType.connect 0)))
