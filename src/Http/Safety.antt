-- ===== src/Http/Safety.antt =====
-- What no request can do to the database, and what none can do without the API key.
use agentary.Prelude.{
  String, ◌≡◌, ◌≢◌, refl, Bool, true, false, ◌==◌, List, [], ◌∷◌, if◌then◌else◌, eq_iff, arith, ap,
  ◌∙◌,
}
use agentary.Store.Model.{Db}
use agentary.Exec.{World}
use agentary.Http.{write_json_error, Request, Server, Handler, failure}
use agentary.Http.Routes.{serve, inner, api_key_middleware}
use agentary.Http.Writes.{Kept}
use agentary.Http.Kept.Resources.{KeepsOutside}
use agentary.Http.Kept.Serve.{serve-Handles}
use agentary.Http.Statuses.{IsStatused, run_call-IsStatused}

-- The requests of a server, one after another, and the world that they leave.
unfoldable pub serve_all : Server → List Request → World → World
unfolding serve
serve_all server [] w = w
serve_all server (req ∷ rest) w = serve_all server rest (serve server req w).1

serve_all-Handles :
    (P : Db → Type 0) (server : Server)
    → KeepsOutside P server
    → Kept P
    → (reqs : List Request) (w : World) → P w.db
    → P (serve_all server reqs w).db
unfolding serve_all
serve_all-Handles P server outside calls [] w h = h
serve_all-Handles P server outside calls (req ∷ rest) w h =
    serve_all-Handles P server outside calls rest (serve server req w).1
      ((serve-Handles server outside req (λ g. calls)).handled w h)

-- A GET request changes nothing in the database, whatever it asks for and whichever statements the
-- driver fails, if the programs and files of the machine leave the database alone.
pub get_changes_nothing :
    (server : Server)
    → ((P : Db → Type 0) → KeepsOutside P server)
    → (req : Request) → req.method ≡ "GET"
    → (w : World) → (serve server req w).1.db ≡ w.db
get_changes_nothing server outside req get w =
    (serve-Handles server (outside (λ d. d ≡ w.db)) req (λ other. absurd (other get))).handled w
      refl

-- Over every sequence of requests, whichever statements the driver fails, if the programs and
-- files of the machine leave the database alone: a database all of whose tasks have one of the
-- eight statuses that the code names becomes another such.
pub requests-IsStatused :
    (server : Server)
    → ((P : Db → Type 0) → KeepsOutside P server)
    → (reqs : List Request) (w : World) → IsStatused w.db
    → IsStatused (serve_all server reqs w).db
requests-IsStatused server outside reqs w h =
    serve_all-Handles IsStatused server (outside IsStatused) run_call-IsStatused reqs w h

-- The key that a request brings: the header's, or without one the query's.
abbrev pub key_of : Request → String
key_of req = if req.api_key_header == "" then req.query "api_key" else req.api_key_header

refused :
    (api_key : String) (next : Request → Handler) (req : Request)
    → req.path ≢ "/health"
    → req.path ≢ "/metrics"
    → key_of req ≢ api_key
    → api_key_middleware api_key next req ≡ write_json_error 401 "invalid or missing API key"
unfolding api_key_middleware
refused api_key next req h m n =
    ground
      (arith, eq_iff req.path "/health", eq_iff req.path "/metrics", eq_iff (key_of req) api_key)

serve-guarded :
    (server : Server) (req : Request)
    → server.api_key ≢ ""
    → serve server req ≡ api_key_middleware server.api_key (inner server) req
unfolding serve
serve-guarded server req k =
    ap (λ b. if b then inner server req else api_key_middleware server.api_key (inner server) req)
      (no_match (server.api_key == "") (λ e. k ((eq_iff server.api_key "").0 e)))
  where
    no_match : (b : Bool) → (b ≢ true) → b ≡ false
    no_match b n = ground arith

-- Where the server has an API key, a request that does not bring it is answered 401, changes
-- nothing and publishes nothing, whatever its method is; only /health and /metrics are exempt.
pub no_key_no_effect :
    (server : Server) (req : Request) (w : World)
    → server.api_key ≢ ""
    → req.path ≢ "/health"
    → req.path ≢ "/metrics"
    → key_of req ≢ server.api_key
    → serve server req w ≡ (record { status = 401; body = failure "invalid or missing API key" }, w)
no_key_no_effect server req w k h m n =
    ap (λ (f : Handler). f w) (serve-guarded server req k)
    ∙ ap (λ (f : Handler). f w) (refused server.api_key (inner server) req h m n)
