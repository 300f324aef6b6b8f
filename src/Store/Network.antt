-- ===== src/Store/Network.antt =====
-- internal/store/queries.go, the network allowlist: ListAllowedDomains, ResetAllowlist, AllowDomain,
-- DisallowDomain.
pub mod Allowlist
use agentary.Prelude.{
  String, Bool, not, List, [], ◌∷◌, ◌++◌, if◌then◌else◌, ◌==◌, text_le, any, delete_rows, order_by,
}
use agentary.Store.Model.{Db}
use agentary.Exec.{
  Exec, Result, ok, err, required, pure, query, execute, ◌>>=◌, ◌>>◌, attempt, ignore, guard,
}

-- ListAllowedDomains, ORDER BY domain.
unfoldable pub list_allowed_domains : Exec (List String)
list_allowed_domains = query λ d. order_by text_le d.allowlist

-- INSERT OR IGNORE: `domain` is the primary key.
abbrev pub insert_domain : String → List String → List String
insert_domain domain domains =
    if any (λ s. s == domain) domains then domains else domains ++ domain ∷ []

abbrev pub delete_domain : String → List String → List String
delete_domain domain = delete_rows (λ s. s == domain)

-- A statement on `network_allowlist`.
unfoldable pub on_allowlist : (List String → List String) → Exec Unit
on_allowlist f = execute λ d. record d { allowlist = f d.allowlist }

-- ResetAllowlist: DELETE, then INSERT of the wildcard.
unfoldable pub reset_allowlist : Exec Unit
unfolding on_allowlist
reset_allowlist = do on_allowlist (λ _. []); on_allowlist (insert_domain "*")

-- AllowDomain
unfoldable pub allow_domain : String → Exec Unit
unfolding reset_allowlist
allow_domain domain = do
  guard (not (domain == "")) (required "domain")
  if domain == "*"
      then reset_allowlist
      else do ignore (on_allowlist (delete_domain "*")); on_allowlist (insert_domain domain)

abbrev pub reset_if_empty : Result (List String) → Exec Unit
reset_if_empty (err e) = pure tt
reset_if_empty (ok []) = reset_allowlist
reset_if_empty (ok (d ∷ rest)) = pure tt

-- DisallowDomain: the error of the listing is dropped.
unfoldable pub disallow_domain : String → Exec Unit
unfolding reset_allowlist
disallow_domain domain = do
  guard (not (domain == "")) (required "domain")
  on_allowlist (delete_domain domain)
  attempt list_allowed_domains reset_if_empty
