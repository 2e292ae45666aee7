-- ===== src/Provisioner.antt =====
-- The coordinator of src/plane_demo/management/provisioner.py: `run_once` and `run_loop`, over an
-- `OperationStore` session that may fail and any provider.
-- The guard that `run_loop` installs is called by the provider's own commands; its failure is a
-- database error that an operation of the provider raises. Logging and sleeping are left out, and
-- SystemExit, which is no Exception. `run_loop` takes the number of rounds until `stopped()`.
pub mod Replay
pub mod Settles
use radius_todolist_app.Prelude.{
  ℕ, zero, suc, String, Bool, true, false, Option, none, some, List, [], ◌∷◌, str_eq, if◌then◌else◌,
  find,
}
use radius_todolist_app.Error.{Error, Result, ok, err, provisioning, is_database}
use radius_todolist_app.Session
use radius_todolist_app.Session.{Session, Exec, execute}
use radius_todolist_app.Tables.{Status, running, failed, Pair, Db}
use radius_todolist_app.Operations.{
  PendingOperation, interrupt_running, claim_pending, observe, complete,
}
use radius_todolist_app.Provisioning.{PairResult, Provider, provision_pair}
use radius_todolist_app.Provisioning.Effects.{Program, World, pure, raise, ask, tell, ◌>>=◌, ◌>>◌}

-- `check_session`
unfoldable pub check_session : Exec Db Unit
check_session = execute (λ d. (ok tt, d))

found_pair : Option Pair → Exec Db Pair
found_pair none = Session.raise (provisioning "pair_not_found")
found_pair (some p) = Session.pure p

-- `read_pair`
unfoldable pub read_pair : String → Exec Db Pair
unfolding found_pair
read_pair pair_id =
    Session.◌>>=◌ (execute (λ d. (ok (find (λ p. str_eq p.pair_id pair_id) d.pairs), d))) found_pair

-- The session with `run_once`'s variable `stage`.
pub record Progress : Type 0 where
  pub session : Session Db
  pub stage : String

unfoldable pub on_session : {A : Type 0} → Exec Db A → Progress → Result A × Progress
on_session m p = let (r, s) = m p.session in (r, record p { session = s })

-- The inner function `observe` of `run_once`.
unfoldable pub observe_stage : String → String → Progress → Result (Unit {0}) × Progress
observe_stage operation_id value p =
    let (r, s) = observe operation_id value running none p.session in
    (r, record { session = s; stage = value })

-- error.code if isinstance(error, ProvisioningError) else "provider_contract_failed"
abbrev pub code_of : Error → String
code_of (provisioning code) = code
code_of _ = "provider_contract_failed"

module _ {P : Type 0} (provider : Provider P) where
  -- The body of `try`.
  unfoldable pub attempt : PendingOperation → Program P Progress PairResult
  unfolding on_session
  attempt operation = do
    pair ← tell (on_session (read_pair operation.pair_id))
    provision_pair provider (observe_stage operation.operation_id) operation pair

  -- What follows the body: `except psycopg.Error`, `except Exception`, and the end of the function.
  unfoldable pub settle : PendingOperation → Result PairResult → Program P Progress Bool
  unfolding on_session
  settle operation (ok _) = do tell (on_session (complete operation.operation_id)); pure true
  settle operation (err error) = if is_database error then raise error else (do
    stage ← tell (λ p. (ok p.stage, p))
    tell (on_session (observe operation.operation_id stage failed (some (code_of error))))
    pure true)

  unfoldable pub process : Option PendingOperation → Program P (Session Db) Bool
  unfolding attempt settle
  process none w = (ok false, w)
  process (some operation) w =
      let start : World P Progress = record {
        provider = w.provider;
        caller = record { session = w.caller; stage = "starting" };
      } in
      let (outcome, w') = attempt operation start in
      let (r, w'') = settle operation outcome w' in
      (r, record { provider = w''.provider; caller = w''.caller.session })

  -- `run_once`
  unfoldable pub run_once : Program P (Session Db) Bool
  unfolding process
  run_once = do operation ← tell claim_pending; process operation

-- What `run_loop` uses of a provider besides the protocol.
pub record Service (P : Type 0) : Type 0 where
  pub provider : Provider P
  pub authenticate : P → Result (Unit {0}) × P
  pub connect_management : P → Result (Unit {0}) × P
  pub verify_recipes : P → Result (Unit {0}) × P

module _ {P : Type 0} (service : Service P) where
  -- The `while` of `run_loop`, until `stopped()`.
  unfoldable pub rounds : ℕ → Program P (Session Db) Unit
  unfolding run_once check_session
  rounds zero = pure tt
  rounds (suc n) = do tell check_session; run_once service.provider; rounds n

  -- `run_loop` once the running operations are interrupted.
  unfoldable pub after_interrupt : Bool → ℕ → Program P (Session Db) Unit
  unfolding rounds
  after_interrupt prepare n = do
    if prepare
        then (do
          ask service.authenticate
          ask service.connect_management
          ask service.verify_recipes)
        else pure tt
    rounds n

  -- `run_loop`
  unfoldable pub run_loop : Bool → ℕ → Program P (Session Db) Unit
  unfolding after_interrupt
  run_loop prepare n = do tell interrupt_running; after_interrupt prepare n
