-- ===== src/Tests/Configured.antt =====
-- src/config/Config.cpp on a short file.
use kjdmud.Base.{◌≡◌, refl, pos, true, false, [], ◌∷◌, some, if_chain}
use kjdmud.Core.Text.{codes, text_eq}
use kjdmud.Core.Errors.{ok, ◌>>=◌}
use kjdmud.Setup.{Config, web_socket, load_from_file}
use kjdmud.Setup.Ports.{Holds, IsServed, load_from_file-IsServed}

-- The defaults of the class.
abbrev defaults : Config
defaults = record {
  mudlib_root = codes "./test/mudlib_stub";
  master_file = codes "/master";
  port = pos 1129;
  heartbeat_interval_ms = pos 2000;
  max_eval_cost = pos 10000000;
  max_string_length = pos 200000;
  include_dir = codes "secure/include";
  simul_efun_file = [];
  mud_name = codes "KJDMUD";
  global_include_file = [];
  dialect = codes "fluffos";
  auto_trust_backbone = false;
  listen_ports = [];
  saw_listen_line = false;
  tls_cert = [];
  tls_key = [];
  test_results_path = [];
  max_connections = pos 256;
  raw = [];
}

load_listen_line :
    (load_from_file (some (codes "# ports\nlisten: websocket 80 tls\n")) defaults >>= λ r.
    ok r.0.listen_ports)
    ≡ ok (record { slot = 1; kind = web_socket; port = pos 80; tls = true } ∷ [])
unfolding load_from_file if_chain text_eq
load_listen_line = refl

load_from_file-IsServed_example :
    Holds IsServed (load_from_file (some (codes "listen: websocket 80 tls\n")) defaults)
load_from_file-IsServed_example =
    load_from_file-IsServed (codes "listen: websocket 80 tls\n") defaults
