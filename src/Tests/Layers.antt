-- ===== src/Tests/Layers.antt =====
-- A server that answers the second request, and one that ends at once.
use crate_python.Exec.{ok, err}
use crate_python.Exceptions.{Exn, builtin_error, system_error, attribute_error}
use crate_python.Prelude.{
  refl, zero, suc, none, some, true, false, inr, ℕ, ◌*◌, str, ◌≡◌, arith, ◌⊎◌, [], ◌∷◌,
}
use crate_python.Json
use crate_python.Testing.Settings
use crate_python.Testing.Settings.{init_command, start_command, create_settings, options, update}
use crate_python.Testing.Address.{Port, show_from}
use crate_python.Prelude.Dict.{insert}
use crate_python.Prelude.{text_eq}
use crate_python.Testing.Layer.{Machine, Line, Layer, stop, start, wait_for, is_started}
use crate_python.Testing.Layer.Starts.{start-stop}
use crate_python.Testing.Layer.Waits.{IsUp}
use crate_python.Testing.Layer.Serves.{wait_for-serves}

abbrev heads : ℕ → Exn ⊎ ℕ
heads zero = inr 503
heads (suc n) = inr 200

-- A clock that goes on by a second with each reading.
abbrev machine : Machine
machine = record {
  time = λ n. 1000 * n;
  log = λ n. Line.written (str "started");
  returncode = none;
  makes_data = true;
  exits = true;
  head = heads;
  master = λ n. inr (200, Json.null);
  address = λ line. none;
}

abbrev stopped : Layer
stopped = record {
  http_url = some (str "http://localhost:4200");
  process = false;
  monitor = false;
  consumers = 0;
  data_dir = true;
  reads = 0;
  lines = 0;
  requests = 0;
  sleeps = 0;
}

abbrev running : Layer
running = record stopped { process = true; monitor = true }

running-IsUp : IsUp running
running-IsUp = record { running = refl; read = refl }

wait_for-serves_example :
    (s' : Layer) × (wait_for machine (is_started machine) 5 running ≡ (ok tt, s'))
wait_for-serves_example =
    wait_for-serves machine 1 5 running refl (λ i i<1. omega (arith, i<1)) (omega arith)

abbrev broken : Machine
broken = record machine { returncode = some 1 }

start-stop_example :
    (start broken 9 stopped ≡ (
      err (builtin_error system_error (str "Failed to start server")),
      record stopped { process = true; data_dir = true },
    ))
    × ((stop broken (start broken 9 stopped).1).0
        ≡ err (builtin_error attribute_error (str "object has no attribute 'monitor'")))
    × ((stop broken (start broken 9 stopped).1).1.data_dir ≡ true)
start-stop_example = start-stop broken 9 1 stopped refl refl refl

init_command_test :
    init_command (record {
      name = str "a";
      crate_exec = str "/c/bin/crate";
      config_dir = str "/c/config";
      config_is_given_file = false;
      config_name = str "crate.yml";
      cluster_name = none;
      host = str "localhost";
      port = Port.number 4200;
      transport_port = Port.no_port;
      settings =
          (str "network.host", Settings.plain (str "::1")) ∷ (str "x", Settings.flag true) ∷ [];
      data_path = str "/tmp/a";
    })
    ≡ ok (
        str "/c/bin/crate"
        ∷ str "-Cdiscovery.type=zen"
        ∷ str "-Cdiscovery.initial_state_timeout=0"
        ∷ str "-Cnode.name=a"
        ∷ str "-Ccluster.name=Testing4200"
        ∷ str "-Cnetwork.host=::1"
        ∷ str "-Chttp.port=4200"
        ∷ str "-Cpath.conf=/c/config"
        ∷ str "-Ctransport.tcp.port=4300-4399"
        ∷ str "-Cx=true"
        ∷ str "-Cpath.data=/tmp/a"
        ∷ [])
unfolding init_command start_command options create_settings update insert text_eq str show_from
init_command_test = refl
