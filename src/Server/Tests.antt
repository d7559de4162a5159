-- ===== src/Server/Tests.antt =====
-- A server, and requests to it.
use task_flow_alisha_sharma.Common.{◌≡◌, refl, ◌⊎◌, inr, none, some, [], ◌*◌, ◌/◌}
use task_flow_alisha_sharma.Common.Int.{pos}
use task_flow_alisha_sharma.RateLimit.{RateLimitConfig, second}
use task_flow_alisha_sharma.Repository.Tests.{calm, start}
use task_flow_alisha_sharma.Sse.{new_broker}
use task_flow_alisha_sharma.Middleware.Tests.{toy}
use task_flow_alisha_sharma.Server.{
  Request, Parts, Server, delete_project, logout, serve_api, serve_auth,
}
use task_flow_alisha_sharma.Server.Opaque.{failures_untold}
use task_flow_alisha_sharma.Server.Opaque.Rules.{Opaque}
use task_flow_alisha_sharma.Middleware.{token_of, authenticate}
use task_flow_alisha_sharma.Database.Others.{Distinct, Spares}
use task_flow_alisha_sharma.Server.Isolation.{Alone, others_untouched}
use task_flow_alisha_sharma.Server.Guarded.{Untouched, unauthenticated_refused}
use task_flow_alisha_sharma.AppError.{conflict}
use task_flow_alisha_sharma.Common.Exec.{err}
use task_flow_alisha_sharma.Http.{returned}
use task_flow_alisha_sharma.Server.Log.{info, logged}

abbrev limit : RateLimitConfig
limit = record { max = pos 5; window = 60 * second }

abbrev pub parts : Parts
parts = record {
  env = calm;
  crypto = toy;
  jwt = λ at key token. none;
  check = λ rules. [];
  auth = record { jwt_secret = "0123456789abcdef"; access_expiry = 900; refresh_expiry = 7000 };
  app_env = "development";
  auth_limit = limit;
  api_limit = limit;
}

abbrev server : Server
server = record {
  streams = record {
    world = record start { event_bus = some new_broker };
    user_conns = [];
    handles = 0;
  };
  entries = [];
}

-- A token that the library does not accept.
abbrev pub forged : Request
forged = record {
  ip = "10.0.0.1";
  request_id = "";
  credentials = record { x_access_token = "forged"; authorization = "" };
  refresh_cookie = "";
}

unauthenticated_refused_example :
    let r = serve_api parts forged (delete_project "p1") server in
    ((r.0.status ≡ 401) ⊎ (r.0.status ≡ 429)) × Untouched server r.1
unauthenticated_refused_example =
    unauthenticated_refused parts forged (delete_project "p1") server (inr refl)

failures_untold_example :
    Opaque (serve_api parts forged (delete_project "p1") server).0
    × Opaque (serve_auth parts forged logout server).0
failures_untold_example = failures_untold parts forged (delete_project "p1") logout server

-- A conflict that is returned is logged with the status that the response began with.
conflict_keeps_200 :
    logged 200 (err (returned (conflict "conflict"))) ≡ some (record { level = info; status = 200 })
unfolding logged
conflict_keeps_200 = refl

-- Every token is one of the user u2, who owns nothing.
abbrev pub trusting : Parts
trusting = record parts {
  jwt = λ at key token. some (record { user_id = some "u2"; email = none });
}

pub alone : Alone calm
alone n db = refl

distinct : Distinct server.streams.world.db.projects
distinct = (refl, tt)

accepted :
    authenticate trusting.jwt (calm.clock 1 / second) trusting.auth.jwt_secret forged.credentials
    ≡ some "u2"
unfolding authenticate token_of
accepted = refl

others_untouched_example :
    let after = (serve_api trusting forged (delete_project "p1") server).1.streams.world.db in
    Spares "u2" server.streams.world.db after × Distinct after.projects
others_untouched_example =
    others_untouched trusting "u2" forged (delete_project "p1") server alone distinct accepted
