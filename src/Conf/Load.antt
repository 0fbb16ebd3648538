-- ===== src/Conf/Load.antt =====
-- server/conf/load.go and server/conf/utils.go: reading a configuration file into a structure, and the
-- test of a path.
use nats_kafka.Base.{String, Bool, true, false, ◌&&◌, not, str_eq, if◌then◌else◌}
use nats_kafka.Base.Outcome.{Error, Outcome, ok, fail, panic, message}
use nats_kafka.Conf.Values.{Entries, Struct}
use nats_kafka.Conf.Parse.{Conversions, parse_struct}

-- What `os.Stat` tells of a path.
pub record FileInfo : Type 0 where
  pub is_regular : Bool
  pub is_dir : Bool

-- `os.ReadFile`, `conf.Parse` of nats-server, `filepath.Abs`, and `os.Stat` with `os.IsNotExist`; an
-- `os.Stat` that fails in another way leaves a nil `FileInfo`, whose `Mode` panics.
pub record Outside : Type 0 where
  pub read_file : String → Outcome String
  pub parse : String → Outcome Entries
  pub abs : String → Outcome String
  pub stat : String → Outcome FileInfo
  pub is_not_exist : Error → Bool

module _ (c : Conversions) (o : Outside) where
  pub load_config_from_map : Entries → Struct → Bool → Outcome (Unit {0}) × Struct
  load_config_from_map m s strict = parse_struct c strict m s

  unfoldable pub load_config_from_string : String → Struct → Bool → Outcome (Unit {0}) × Struct
  load_config_from_string text s strict = elim (o.parse text) [
    | ok m ↦ parse_struct c strict m s
    | fail e ↦ (fail e, s)
    | panic ↦ (panic, s)
  ]

  unfoldable pub load_config_from_file : String → Struct → Bool → Outcome (Unit {0}) × Struct
  unfolding load_config_from_string
  load_config_from_file file s strict = elim (o.read_file file) [
    | ok text ↦ load_config_from_string text s strict
    | fail e ↦ (fail (message "error reading configuration file: %s"), s)
    | panic ↦ (panic, s)
  ]

-- The tests of the kind of a file.
pub checked_kind : String → Bool → FileInfo → Outcome String
checked_kind path dir info =
    if dir && info.is_regular
    then fail (message "the path [%s] is not a directory")
    else if not dir && info.is_dir
    then fail (message "the path [%s] is not a file")
    else ok path

pub checked_stat : Outside → String → Bool → Outcome FileInfo → Outcome String
unfolding checked_kind
checked_stat o path dir (ok info) = checked_kind path dir info
checked_stat o path dir (fail e) =
    if o.is_not_exist e then fail (message "the path [%s] doesn't exist") else panic
checked_stat o path dir panic = panic

pub validate_path_exists : Outside → String → Bool → Outcome String
unfolding checked_stat
validate_path_exists o path dir =
    if str_eq path "" then fail (message "path is not specified") else elim (o.abs path) [
      | ok full ↦ checked_stat o full dir (o.stat full)
      | fail e ↦ fail (message "error parsing path [%s]: %v")
      | panic ↦ panic
    ]

abbrev pub validate_dir_path : Outside → String → Outcome String
validate_dir_path o path = validate_path_exists o path true

abbrev pub validate_file_path : Outside → String → Outcome String
validate_file_path o path = validate_path_exists o path false
