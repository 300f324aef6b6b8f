-- ===== src/Http/Network.antt =====
-- internal/httpapi/server.go: /network, /network/allow, /network/disallow and /network/reset.
use agentary.Prelude.{String, not, ◌==◌, if◌then◌else◌}
use agentary.Store.Network.{list_allowed_domains, reset_allowlist, allow_domain, disallow_domain}
use agentary.Exec.{Exec, publish, network_update}
use agentary.Http.{
  Request, Handler, write_json, write_json_error, method_not_allowed, checked, listed, silently,
  decoded, accepted, allowed_domains,
}
use agentary.Http.Input.{text_field, decode}

-- The answer after a change of the allowlist.
abbrev pub network_changed : Handler
network_changed = silently (publish network_update) (write_json accepted)

unfoldable pub network : Request → Handler
network req =
    if not (req.method == "GET")
    then method_not_allowed
    else listed 500 list_allowed_domains allowed_domains

unfoldable pub network_reset : Request → Handler
network_reset req =
    if not (req.method == "POST")
    then method_not_allowed
    else checked 500 reset_allowlist λ _. network_changed

-- A change of one domain, which the body names.
abbrev pub change_domain : (String → Exec Unit) → Request → Handler
change_domain change req =
    if not (req.method == "POST")
    then method_not_allowed
    else decoded (decode req λ j. text_field (j "domain")) λ domain.
      if domain == ""
      then write_json_error 400 "domain required"
      else checked 400 (change domain) λ _. network_changed

unfoldable pub network_allow : Request → Handler
network_allow = change_domain allow_domain

unfoldable pub network_disallow : Request → Handler
network_disallow = change_domain disallow_domain
