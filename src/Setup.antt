-- ===== src/Setup.antt =====
-- include/kjdmud/config/Config.hpp and src/config/Config.cpp: the configuration file.
pub mod Reading
pub mod Ports
use kjdmud.Base.{
  ℕ, ◌+◌, ℤ, pos, Bool, true, false, ◌||◌, List, [], ◌∷◌, ◌++◌, Option, none, some, length, ◌==◌,
  if◌then◌else◌, if_chain,
}
use kjdmud.Core.Text.{Text, codes, text_eq}
use kjdmud.Core.Errors.{Result, ok, err, ◌>>=◌}
use kjdmud.Setup.Reading.{trim, stoi, next_word, read_int, words, lines}
use kjdmud.Core.Split.{split_at}

pub data ListenKind : Type 0 where
  telnet web_socket : ListenKind

pub record ListenPort : Type 0 where
  pub slot : ℕ
  pub kind : ListenKind
  pub port : ℤ
  pub tls : Bool

-- `raw` has the latest line of a key first.
pub record Config : Type 0 where
  pub mudlib_root : Text
  pub master_file : Text
  pub port : ℤ
  pub heartbeat_interval_ms : ℤ
  pub max_eval_cost : ℤ
  pub max_string_length : ℤ
  pub include_dir : Text
  pub simul_efun_file : Text
  pub mud_name : Text
  pub global_include_file : Text
  pub dialect : Text
  pub auto_trust_backbone : Bool
  pub listen_ports : List ListenPort
  pub saw_listen_line : Bool
  pub tls_cert : Text
  pub tls_key : Text
  pub test_results_path : Text
  pub max_connections : ℤ
  pub raw : List (Text × Text)

abbrev pub has_tls : List Text → Bool
has_tls [] = false
has_tls (w ∷ ws) = let more = has_tls ws in if text_eq w (codes "tls") then true else more

unfoldable pub add_port : Text → ℤ → List Text → Config → Config
unfolding text_eq
add_port kind_word number flags c = record c {
  listen_ports =
      c.listen_ports
      ++ record {
        slot = length c.listen_ports + 1;
        kind = if text_eq kind_word (codes "websocket") then web_socket else telnet;
        port = number;
        tls = has_tls flags;
      }
        ∷ [];
  saw_listen_line = true;
}

-- Nothing changes where the line has no word or no number behind it.
unfoldable pub add_listen_line : Text → Config → Config
unfolding add_port next_word read_int words
add_listen_line val c =
    let (kind_word, rest) = next_word val in
    elim (read_int rest) [
      | none ↦ c
      | some (number, flags) ↦
          if length kind_word == 0 then c else add_port kind_word number (words flags) c
    ]

unfoldable pub ensure_default_listen_port : Config → Config
ensure_default_listen_port c = elim c.listen_ports [
  | [] ↦ record c {
    listen_ports = record { slot = 1; kind = telnet; port = c.port; tls = false } ∷ [];
  }
  | p ∷ ps ↦ c
]

abbrev is_yes : Text → Bool
is_yes val =
    text_eq val (codes "1")
    || text_eq val (codes "true")
    || text_eq val (codes "yes")
    || text_eq val (codes "on")

-- The comparisons of a key, in their order, with what each leads to.
abbrev pub cases_of : Text → Text → Config → List (Bool × Result Config)
cases_of key val c =
    (text_eq key (codes "mudlib_root"), ok (record c { mudlib_root = val }))
    ∷ (text_eq key (codes "master_file"), ok (record c { master_file = val }))
    ∷ (text_eq key (codes "port"), stoi val >>= λ i. ok (record c { port = i }))
    ∷ (
      text_eq key (codes "heartbeat_interval_ms"),
      stoi val >>= λ i. ok (record c { heartbeat_interval_ms = i }),
    )
    ∷ (text_eq key (codes "max_eval_cost"), stoi val >>= λ i. ok (record c { max_eval_cost = i }))
    ∷ (
      text_eq key (codes "max_string_length"),
      stoi val >>= λ i. ok (record c { max_string_length = i }),
    )
    ∷ (text_eq key (codes "include_dir"), ok (record c { include_dir = val }))
    ∷ (text_eq key (codes "simul_efun_file"), ok (record c { simul_efun_file = val }))
    ∷ (text_eq key (codes "mud_name"), ok (record c { mud_name = val }))
    ∷ (text_eq key (codes "global_include_file"), ok (record c { global_include_file = val }))
    ∷ (text_eq key (codes "dialect"), ok (record c { dialect = val }))
    ∷ (
      text_eq key (codes "auto_trust_backbone"),
      ok (record c { auto_trust_backbone = is_yes val }),
    )
    ∷ (text_eq key (codes "listen"), ok (add_listen_line val c))
    ∷ (text_eq key (codes "tls_cert"), ok (record c { tls_cert = val }))
    ∷ (text_eq key (codes "tls_key"), ok (record c { tls_key = val }))
    ∷ (text_eq key (codes "test_results_path"), ok (record c { test_results_path = val }))
    ∷ (
      text_eq key (codes "max_connections"),
      stoi val >>= λ i. ok (record c { max_connections = i }),
    )
    ∷ []

unfoldable pub set_key : Text → Text → Config → Result Config
unfolding if_chain text_eq stoi add_listen_line
set_key key val c = if_chain (cases_of key val c) (ok c)

abbrev pub is_comment : Text → Bool
is_comment [] = true
is_comment (x ∷ s) = x == b'#'

-- A line with a colon, behind the tests on comments.
unfoldable pub load_pair : Text → Text → Config → Result Config
unfolding set_key
load_pair key val c =
    if length key == 0 then ok c else set_key key val (record c { raw = (key, val) ∷ c.raw })

unfoldable pub load_line : Text → Config → Result Config
unfolding load_pair trim split_at
load_line line c = if is_comment line then ok c else elim (split_at b':' line) [
  | none ↦ ok c
  | some (key, val) ↦ load_pair (trim key) (trim val) c
]

unfoldable pub load_lines : List Text → Config → Result Config
unfolding load_line
load_lines [] c = ok c
load_lines (line ∷ more) c = load_line line c >>= load_lines more

-- `loadFromFile`: `none` is a file that cannot be opened.
unfoldable pub load_from_file : Option Text → Config → Result (Config × Bool)
unfolding load_lines ensure_default_listen_port lines
load_from_file none c = ok (c, false)
load_from_file (some text) c =
    load_lines (lines text) (record c { listen_ports = []; saw_listen_line = false }) >>= λ d.
    ok (ensure_default_listen_port d, true)
