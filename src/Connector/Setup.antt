-- ===== src/Connector/Setup.antt =====
-- PlazaConnector.cpp: the configuration that the constructor reads.
pub mod RoundTrip
use simple_cgate.Base.{
  ℕ, Bool, true, false, Option, none, some, List, [], ◌∷◌, ◌++◌, Text, codes, bind_some, map_some,
  if◌then◌else◌, ◌==◌, nat_eq, ◌≡◌, text_eq,
}
use simple_cgate.Entities.Price.{i64_to_a}
use simple_cgate.Connector.{Connector, GateConfig}
use simple_cgate.Utils.{read_config_file, read_parameter, read_flag, Sections}

-- The stringstream at the end of `InitConfig`.
abbrev pub connection_string_of : GateConfig → ℕ → Text
connection_string_of g app_id =
    (if g.tcp then codes "p2tcp://" else codes "p2lrpcq://")
    ++ g.ip_address
    ++ codes ":"
    ++ g.port
    ++ codes ";app_name=SIMPLE"
    ++ i64_to_a app_id

-- `InitConfig`, on what the file holds.
unfoldable pub configure : {D : Type 0} → Sections → Connector D → Option (Bool × Connector D)
unfolding read_flag i64_to_a
configure conf c = elim (conf (codes "main")) [
  | none ↦ some (false, c)
  | some entries ↦ bind_some (read_flag entries (codes "Fast") c.config.is_fast) λ fast.
      bind_some (read_flag entries (codes "TCP") c.config.tcp) λ tcp.
        let g : GateConfig = record {
          broker_code = read_parameter entries (codes "BrokerCode") c.config.broker_code;
          client_code = read_parameter entries (codes "ClientCode") c.config.client_code;
          ip_address = read_parameter entries (codes "Address") c.config.ip_address;
          port = read_parameter entries (codes "Port") c.config.port;
          is_fast = fast;
          tcp = tcp;
        } in
        some (true, record c { config = g; connection_string = connection_string_of g c.app_id })
]

unfoldable pub init_config : {D : Type 0} → Text → Connector D → Option (Bool × Connector D)
unfolding read_config_file configure
init_config file c = configure (read_config_file file) c

-- A file that gives a configuration.
abbrev pub flag_text : Bool → Text
flag_text true = codes "1"
flag_text false = codes "0"

abbrev pub entry_line : Text → Text → Text → Text
entry_line name value rest = name ++ b'=' ∷ value ++ b'\n' ∷ rest

unfoldable pub config_file : GateConfig → Text
config_file g =
    codes "[main]"
    ++ b'\n'
      ∷ entry_line (codes "BrokerCode") g.broker_code (
          entry_line (codes "ClientCode") g.client_code (
            entry_line (codes "Address") g.ip_address (
              entry_line (codes "Port") g.port (
                entry_line (codes "Fast") (flag_text g.is_fast)
                  (entry_line (codes "TCP") (flag_text g.tcp) [])))))

-- A text that stands on one line.
abbrev pub IsLine : Text → Type 0
IsLine [] = Unit
IsLine (c ∷ cs) = ((c == b'\n') ≡ false) × IsLine cs
