-- ===== src/Think/Config.antt =====
-- core/config.go: `getConfig`, on what `config.NewConfig` gives. `strconv.ParseBool` and `strconv.Atoi` are
-- parameters.
use thinkgo.Base.{
  Bool, true, if◌then◌else◌, Bytes, Option, none, some, codes, equal, to_upper, trim,
}
use thinkgo.Config.Ini.Parse.{Ini}
use thinkgo.Config.Ini.Container.{get_data, default_string, default_read}
use thinkgo.Modules.Names.{snake_string}

pub data Level : Type 0 where
  trace debug info notice warn error fatal off : Level

unfoldable pub level_of : Bytes → Level
unfolding equal
level_of v =
    if equal v (codes "TRACE")
    then trace
    else if equal v (codes "DEBUG")
    then debug
    else if equal v (codes "INFO")
    then info
    else if equal v (codes "NOTICE")
    then notice
    else if equal v (codes "WARN")
    then warn
    else if equal v (codes "ERROR")
    then error
    else if equal v (codes "FATAL")
    then fatal
    else if equal v (codes "OFF")
    then off
    else debug

-- `I` is the type int.
pub record Config (I : Type 0) : Type 0 where
  pub app_name : Bytes
  pub debug_mode : Bool
  pub log_level : Level
  pub http_addr : Bytes
  pub http_port : I
  pub tpl_suffix : Bytes
  pub tpl_left : Bytes
  pub tpl_right : Bytes
  pub default_module : Bytes

-- `getConfig`: `none` is the end of the process where the file is not read.
unfoldable pub get_config :
    {I : Type 0} → (Bytes → Option Bool) → (Bytes → Option I) → I → Option Ini → Option (Config I)
unfolding get_data default_string default_read level_of to_upper snake_string
get_config parse_bool atoi port none = none
get_config parse_bool atoi port (some c) = some (record {
  app_name = default_string (codes "appname") (codes "thinkgo") c;
  debug_mode = default_read parse_bool (codes "debug") true c;
  log_level = level_of (to_upper (get_data (codes "loglevel") c));
  http_addr = default_string (codes "httpaddr") (codes "0.0.0.0") c;
  http_port = default_read atoi (codes "httpport") port c;
  tpl_suffix = default_string (codes "tplsuffex") (codes ".html") c;
  tpl_left = default_string (codes "tplleft") (codes "{{{") c;
  tpl_right = default_string (codes "tplright") (codes "}}}") c;
  default_module = snake_string (trim b'/' (default_string (codes "defmodule") (codes "home") c));
})
