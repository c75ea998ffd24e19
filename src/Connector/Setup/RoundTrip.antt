-- ===== src/Connector/Setup/RoundTrip.antt =====
-- PlazaConnector.cpp and Utils.cpp: a configuration that was written to a file, and read from it.
use simple_cgate.Base.{
  ℕ, ◌≡◌, refl, ap, Bool, true, false, not, some, List, [], ◌∷◌, ◌++◌, Text, codes, nat_eq, text_eq,
  ◌==◌, map_some, empty_map, text_beq,
}
use simple_cgate.Utils.{
  lines_of, read_lines, read_line, split_at_sign, left_and_right, read_config_file, skip_spaces,
  stoi_magnitude,
}
use simple_cgate.Connector.{Connector, GateConfig}
use simple_cgate.Connector.Setup.{
  init_config, configure, config_file, flag_text, IsLine, connection_string_of,
}

-- A line, its end, and the lines behind it.
lines_of-line : (l rest : Text) → IsLine l → lines_of (l ++ b'\n' ∷ rest) ≡ l ∷ lines_of rest
unfolding lines_of
lines_of-line [] rest h = refl
lines_of-line (c ∷ cs) rest (here, h) = rw (here, lines_of-line cs rest h) refl

pub record IsWritable (g : GateConfig) : Type 0 where
  pub broker_line : IsLine g.broker_code
  pub client_line : IsLine g.client_code
  pub address_line : IsLine g.ip_address
  pub port_line : IsLine g.port

abbrev entry : Text → Text → Text
entry name value = name ++ b'=' ∷ value

abbrev lines_for : GateConfig → List Text
lines_for g =
    codes "[main]"
    ∷ entry (codes "BrokerCode") g.broker_code
    ∷ entry (codes "ClientCode") g.client_code
    ∷ entry (codes "Address") g.ip_address
    ∷ entry (codes "Port") g.port
    ∷ entry (codes "Fast") (flag_text g.is_fast)
    ∷ entry (codes "TCP") (flag_text g.tcp)
    ∷ []

flag_text-IsLine : (b : Bool) → IsLine (flag_text b)
flag_text-IsLine true = (refl, tt)
flag_text-IsLine false = (refl, tt)

lines_of-config_file : (g : GateConfig) → IsWritable g → lines_of (config_file g) ≡ lines_for g
unfolding lines_of config_file
lines_of-config_file g h =
    rw
      (
        lines_of-line g.broker_code _ h.broker_line,
        lines_of-line g.client_code _ h.client_line,
        lines_of-line g.ip_address _ h.address_line,
        lines_of-line g.port _ h.port_line,
        lines_of-line (flag_text g.is_fast) _ (flag_text-IsLine g.is_fast),
        lines_of-line (flag_text g.tcp) _ (flag_text-IsLine g.tcp),
      )
      refl

-- `std::stoi` of a flag.
flag_value :
    (b : Bool)
    → map_some (λ (n : ℕ). not (n == 0)) (stoi_magnitude (skip_spaces (flag_text b))) ≡ some b
unfolding stoi_magnitude skip_spaces
flag_value true = refl
flag_value false = refl

read_config_file-config_file :
    (g : GateConfig)
    → IsWritable g
    → read_config_file (config_file g) ≡ (read_lines (lines_for g) ([], empty_map)).1
unfolding read_config_file
read_config_file-config_file g h =
    ap (λ ls. (read_lines ls ([], empty_map)).1) (lines_of-config_file g h)

configure-read_lines :
    {D : Type 0} (g : GateConfig) (c : Connector D)
    → configure (read_lines (lines_for g) ([], empty_map)).1 c
      ≡ some (true, record c { config = g; connection_string = connection_string_of g c.app_id })
unfolding text_beq configure read_lines read_line left_and_right split_at_sign
configure-read_lines g c = rw (flag_value g.is_fast, flag_value g.tcp) refl

-- A configuration whose texts stand on one line each, written to a file under `[main]`, is what the
-- connector has after it has read the file; the connection string is made from it, and nothing else of
-- the connector changes.
pub init_config-config_file :
    {D : Type 0} (g : GateConfig) (c : Connector D)
    → IsWritable g
    → init_config (config_file g) c
      ≡ some (true, record c { config = g; connection_string = connection_string_of g c.app_id })
unfolding init_config
init_config-config_file g c h = rw (read_config_file-config_file g h) (configure-read_lines g c)
