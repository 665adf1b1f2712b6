-- ===== src/Testing/Layer.antt =====
-- testing/layer.py, `CrateLayer`: the server's process is started, waited for, and stopped. Times are
-- milliseconds of the monotonic clock.
pub mod Log
pub mod Serves
pub mod Starts
pub mod Validators
pub mod Waits
use crate_python.Testing.Address.{prepend_http}
use crate_python.Json
use crate_python.Json.{Json}
use crate_python.Exceptions.{
  Exn, builtin_error, system_error, exception, attribute_error, index_error, key_error, type_error,
  value_error,
}
use crate_python.Exec.{
  Exec, ok, modify, Result, ◌>>=◌, ◌>>◌, diverge, raise, gets, try_except, case_option, pure, err,
  lift,
}
use crate_python.Prelude.{
  zero, suc, none, some, true, false, ℕ, Option, Text, if◌then◌else◌, Bool, ◌-◌, ◌==◌, ltb, str,
  ◌+◌, ◌*◌, inl, inr, ◌⊎◌,
}

-- What `readline` meets: a line, bytes that are no UTF-8, or a process that writes nothing more and
-- goes on, for which `readline` waits without end.
pub data Line : Type 0 where
  written : Text → Line
  undecodable : Line
  silent : Line

-- What the layer meets: the clock, by its n-th reading, without the time that was slept; what the
-- n-th `readline` of the log meets; whether the process is gone at once, and with which code; whether
-- it has made its data directory; whether it exits in the ten seconds after it was told to; what the
-- n-th request for the start and for the master finds; and the address that a line of the log tells
-- (`HTTP_ADDRESS_RE`).
pub record Machine : Type 0 where
  pub time : ℕ → ℕ
  pub log : ℕ → Line
  pub returncode : Option ℕ
  pub makes_data : Bool
  pub exits : Bool
  pub head : ℕ → Exn ⊎ ℕ
  pub master : ℕ → Exn ⊎ ℕ × Json
  pub address : Text → Option Text

-- `process` and `monitor` say whether the attributes hold an object; `consumers` is the length of the
-- monitor's list; `data_dir` says whether the directory is there. `reads`, `lines`, `requests`
-- and `sleeps` count what was asked of the machine.
pub record Layer : Type 0 where
  pub http_url : Option Text
  pub process : Bool
  pub monitor : Bool
  pub consumers : ℕ
  pub data_dir : Bool
  pub reads : ℕ
  pub lines : ℕ
  pub requests : ℕ
  pub sleeps : ℕ

-- `wait_interval`
abbrev pub wait_interval : ℕ
wait_interval = 200

module _ (m : Machine) where
  -- `time.monotonic`
  clock : Exec Layer ℕ
  clock s = (ok (m.time s.reads + wait_interval * s.sleeps), record s { reads = suc s.reads })

  line_of : Line → Exec Layer Text
  line_of (Line.written t) = pure t
  line_of Line.undecodable = raise (builtin_error value_error (str "can't decode bytes"))
  line_of Line.silent = diverge

  -- `log.readline().decode('utf-8')`
  readline : Exec Layer Text
  unfolding line_of
  readline s = line_of (m.log s.lines) (record s { lines = suc s.lines })

  -- `wait_for_http_url`, with a timeout of 30 seconds, on fuel
  unfoldable pub wait_for_http_url : ℕ → ℕ → Exec Layer (Option Text)
  unfolding clock readline
  wait_for_http_url zero start = diverge
  wait_for_http_url (suc fuel) start = do
    line ← readline
    now ← clock
    case_option (m.address line)
        (let again = wait_for_http_url fuel start in
          if ltb 30000 (now - start) then pure none else again)
        (λ a. pure (some (prepend_http a)))

  -- `_clean`
  clean : Exec Layer (Unit {0})
  clean = modify (λ s. record s { data_dir = false })

  end_process : Exec Layer (Unit {0})
  end_process =
      if m.exits
      then modify (λ s. record s { process = false })
      else raise (builtin_error exception (str "timed out after 10 seconds"))

  -- `stop`. The monitor is there only after `start` came so far.
  unfoldable pub stop : Exec Layer (Unit {0})
  unfolding clean end_process
  stop = do
    process ← gets (λ s. s.process)
    if process then end_process else pure tt
    monitor ← gets (λ s. s.monitor)
    if monitor
        then pure tt
        else raise (builtin_error attribute_error (str "object has no attribute 'monitor'"))
    clean

  not_in_time : Exn
  not_in_time = builtin_error system_error (str "Failed to start Crate instance in time.")

  sleep : Exec Layer (Unit {0})
  sleep = modify (λ s. record s { sleeps = suc s.sleeps })

  -- The loop of `_wait_for`, on fuel
  unfoldable pub wait_loop : Exec Layer Bool → ℕ → ℕ → Exec Layer (Unit {0})
  unfolding clock not_in_time sleep
  wait_loop validator start zero = diverge
  wait_loop validator start (suc fuel) = do
    now ← clock
    valid ← try_except validator (λ e. do stop; raise e)
    (let again = wait_loop validator start fuel in
        if valid
        then pure tt
        else if ltb 30000 (now - start)
        then (do stop; raise not_in_time)
        else (do sleep; again))

  unfoldable pub wait_for : Exec Layer Bool → ℕ → Exec Layer (Unit {0})
  unfolding clock
  wait_for validator fuel = do
    start ← clock
    modify (λ s. record s { consumers = suc s.consumers })
    wait_loop validator start fuel
    modify (λ s. record s { consumers = s.consumers - 1 })

  told : {A : Type 0} → Exn ⊎ A → Exec Layer A
  told (inl e) = raise e
  told (inr a) = pure a

  ask : {A : Type 0} → (ℕ → Exn ⊎ A) → Exec Layer A
  unfolding told
  ask f s = told (f s.requests) (record s { requests = suc s.requests })

  -- The validators of `_wait_for_start` and `_wait_for_master`.
  unfoldable pub is_started : Exec Layer Bool
  unfolding ask
  is_started = try_except (do status ← ask m.head; pure (status == 200)) (λ e. pure false)

  -- `v[0]` of a list
  abbrev first_item : Json → Exn ⊎ Json
  first_item (Json.arr (Json.cons v vs)) = inr v
  first_item (Json.arr Json.nil) = inl (builtin_error index_error (str "list index out of range"))
  first_item _ = inl (builtin_error type_error (str "object is not subscriptable"))

  abbrev rows_of : Json → Exn ⊎ Json
  rows_of (Json.obj fs) = elim (Json.get (str "rows") fs) [
    | none ↦ inl (builtin_error key_error (str "rows"))
    | some v ↦ inr v
  ]
  rows_of _ = inl (builtin_error type_error (str "object is not subscriptable"))

  -- `data['rows'][0][0]`
  master_node : Json → Exec Layer Bool
  unfolding told
  master_node body = do
    rows ← told (rows_of body)
    row ← told (first_item rows)
    node ← told (first_item row)
    pure (Json.truthy node)

  unfoldable pub has_master : Exec Layer Bool
  unfolding ask master_node
  has_master = do
    answer ← ask m.master
    if answer.0 == 200 then master_node answer.1 else pure false

  search_log : ℕ → Exec Layer (Unit {0})
  unfolding clock
  search_log fuel = do
    start ← clock
    found ← wait_for_http_url fuel start
    modify (λ s. record s { http_url = found })

  -- `if not self.http_url: self.http_url = wait_for_http_url(…)`
  find_url : ℕ → Exec Layer (Unit {0})
  unfolding search_log
  find_url fuel = do url ← gets (λ s. s.http_url); case_option url (search_log fuel) (λ u. pure tt)

  await : ℕ → Exec Layer (Unit {0})
  await fuel = do wait_for is_started fuel; wait_for has_master fuel

  -- `returncode = self.process.poll()`
  poll : Exec Layer (Unit {0})
  poll =
      case_option m.returncode (pure tt)
        (λ rc. raise (builtin_error system_error (str "Failed to start server")))

  -- The rest of `start`, with a process
  after_popen : ℕ → Exec Layer (Unit {0})
  unfolding find_url await
  after_popen fuel = do
    find_url fuel
    modify (λ s. record s { monitor = true; consumers = 0 })
    url ← gets (λ s. s.http_url)
    case_option url stop (λ u. await fuel)

  unfoldable pub start : ℕ → Exec Layer (Unit {0})
  unfolding clean poll after_popen
  start fuel = do
    clean
    modify (λ s. record s { process = true; data_dir = m.makes_data })
    poll
    after_popen fuel
