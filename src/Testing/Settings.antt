-- ===== src/Testing/Settings.antt =====
-- testing/layer.py, `CrateLayer.__init__` and `create_settings`: the settings of the server and the
-- command that starts it.
use crate_python.Prelude.{
  zero, suc, none, some, true, false, [], Bool, Text, List, Option, str, ◌∷◌, if◌then◌else◌, ◌++◌,
  ◌&&◌, not, text_eq,
}
use crate_python.Testing.Address.{Port, show_number}
use crate_python.Prelude.Dict.{Dict, insert}
use crate_python.Exceptions.{builtin_error, value_error}
use crate_python.Exec.{Result, ok, err}

-- The value of a setting: a Boolean, or anything else as it prints.
pub data Setting : Type 0 where
  flag : Bool → Setting
  plain : Text → Setting

-- `settings.update(further_settings)`
unfoldable pub update : Dict Setting → Dict Setting → Dict Setting
update settings [] = settings
update settings ((k, v) ∷ further) = update (insert k v settings) further

-- `create_settings`, with the directory of `crate_config`
unfoldable pub create_settings :
    Text → Text → Text → Text → Text → Text → Dict Setting → Dict Setting
create_settings config_dir cluster_name node_name host http_port transport_port further_settings =
    update
      ((str "discovery.type", plain (str "zen"))
        ∷ (str "discovery.initial_state_timeout", plain (str "0"))
        ∷ (str "node.name", plain node_name)
        ∷ (str "cluster.name", plain cluster_name)
        ∷ (str "network.host", plain host)
        ∷ (str "http.port", plain http_port)
        ∷ (str "path.conf", plain config_dir)
        ∷ (str "transport.tcp.port", plain transport_port)
        ∷ [])
      further_settings

-- `str(value).lower()` of a Boolean, `str(value)` else
abbrev show_setting : Setting → Text
show_setting (flag true) = str "true"
show_setting (flag false) = str "false"
show_setting (plain t) = t

-- `"-C%s=%s" % (key, value)`, for each
unfoldable pub options : Dict Setting → List Text
options [] = []
options ((k, v) ∷ settings) = (str "-C" ++ (k ++ (str "=" ++ show_setting v))) ∷ options settings

-- `start_cmd`
unfoldable pub start_command : Text → Dict Setting → Text → List Text
start_command crate_exec settings data_path =
    crate_exec ∷ (options settings ++ ((str "-Cpath.data=" ++ data_path) ∷ []))

-- The port as it prints, if it is one.
abbrev port_text : Port → Text → Text
port_text Port.no_port default = default
port_text (Port.number zero) default = default
port_text (Port.number (suc n)) default = show_number (suc n)
port_text (Port.text []) default = default
port_text (Port.text (c ∷ t)) default = c ∷ t

-- `"Testing{0}".format(port or 'Dynamic')`
abbrev named : Option Text → Port → Text
named none port = str "Testing" ++ port_text port (str "Dynamic")
named (some name) port = name

-- What `__init__` is given: the home and the executable as paths that are made, the configuration with
-- its directory, whether it is a file, and its base name.
pub record Given : Type 0 where
  pub name : Text
  pub crate_exec : Text
  pub config_dir : Text
  pub config_is_given_file : Bool
  pub config_name : Text
  pub cluster_name : Option Text
  pub host : Text
  pub port : Port
  pub transport_port : Port
  pub settings : Dict Setting
  pub data_path : Text

-- The command of `__init__`
unfoldable pub init_command : Given → Result (List Text)
init_command g =
    if g.config_is_given_file && not (text_eq g.config_name (str "crate.yml"))
    then err (
        builtin_error value_error
          (str "crate_config must point to a folder or to a file named \"crate.yml\""))
    else ok (
        start_command g.crate_exec
          (create_settings g.config_dir (named g.cluster_name g.port) g.name g.host
            (port_text g.port (str "4200-4299")) (port_text g.transport_port (str "4300-4399"))
            g.settings)
          g.data_path)

-- `crate_servers`
unfoldable pub crate_servers : Option Text → List Text
crate_servers none = []
crate_servers (some []) = []
crate_servers (some (c ∷ url)) = (c ∷ url) ∷ []
