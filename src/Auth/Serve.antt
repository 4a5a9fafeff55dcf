-- ===== src/Auth/Serve.antt =====
-- The calls that change the state of internal/auth: the handlers of handler.go, and the pass of the
-- janitor (`CleanOnce` of janitor.go).
pub mod Keeps
pub mod Handlers
use controlplane.Prelude.{Option, List, [], ◌∷◌, Text}
use controlplane.Auth.Model.{User, State, Services, Config, Action, log, best_effort, read_clock}
use controlplane.Auth.Limiter.{sweep}
use controlplane.Auth.Tokens.{cleanup}
use controlplane.Auth.Login.{RegisterRequest, LoginRequest, register, login, refresh}
use controlplane.Auth.Account.{LogoutRequest, PasswordRequest, logout, change_password}

unfoldable pub sweep_limiter : Services → Action (Unit {0})
unfolding sweep
sweep_limiter v s =
    let s' = log read_clock s in (tt, record s' { limiter = (sweep (v.now s'.trace) s'.limiter).1 })

-- A failure of the cleanup is logged and the sweep still runs.
unfoldable pub clean_once : Services → Action (Unit {0})
unfolding best_effort cleanup sweep_limiter
clean_once v = best_effort (cleanup v) (sweep_limiter v)

pub data Request : Type 0 where
  registering : Text → Option RegisterRequest → Request
  logging_in : Option LoginRequest → Request
  refreshing : Text → Text → Request
  logging_out : Option User → LogoutRequest → Request
  changing_password : Option User → Option PasswordRequest → Request

unfoldable pub serve : Services → Config → Request → State → State
unfolding register login refresh logout change_password
serve v config (registering header rq) s = (register v config header rq s).1
serve v config (logging_in rq) s = (login v config rq s).1
serve v config (refreshing body cookie) s = (refresh v config body cookie s).1
serve v config (logging_out u rq) s = (logout v config u rq s).1
serve v config (changing_password u rq) s = (change_password v config u rq s).1

-- The requests in the order in which they are served.
unfoldable pub serve_all : Services → Config → List Request → State → State
unfolding serve
serve_all v config [] s = s
serve_all v config (rq ∷ rest) s = serve_all v config rest (serve v config rq s)
