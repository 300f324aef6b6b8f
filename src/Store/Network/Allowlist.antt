-- ===== src/Store/Network/Allowlist.antt =====
-- The network allowlist: what AllowDomain, DisallowDomain and ResetAllowlist leave in it.
use agentary.Prelude.{
  String, Bool, true, false, not, ◌&&◌, ◌||◌, ◌≡◌, refl, sym, ap, ◌∙◌, arith, List, [], ◌∷◌, ◌++◌,
  if◌then◌else◌, ◌==◌, eq_iff, any, either, text_le, order_by, insert_row, Bool-cases, inl, inr,
  ◌⊎◌,
}
use agentary.Store.Network.{
  list_allowed_domains, insert_domain, delete_domain, on_allowlist, reset_allowlist, allow_domain,
  reset_if_empty, disallow_domain,
}
use agentary.Exec.{World, ok, pure, guard, ignore, ◌>>◌}
use agentary.Exec.Run.{bind_run, query_run, execute_run, attempt_run, ignore_run}

-- Is the domain in the list?
abbrev pub lists : String → List String → Bool
lists domain = any (λ s. s == domain)

-- The list is not empty, and "*" stands alone in it.
abbrev pub IsWellFormed : List String → Type 0
IsWellFormed [] = ⊥
IsWellFormed (d ∷ rest) = (lists "*" (d ∷ rest) ≡ true → (d ∷ rest) ≡ ("*" ∷ []))

-- What the two operations leave while the driver fails nothing.
abbrev pub allowed : String → List String → List String
allowed domain domains =
    if domain == "*" then "*" ∷ [] else insert_domain domain (delete_domain "*" domains)

abbrev pub or_wildcard : List String → List String
or_wildcard [] = "*" ∷ []
or_wildcard (d ∷ rest) = d ∷ rest

-- The world with another allowlist.
abbrev pub with_list : World → List String → World
with_list w domains = record w { db = record w.db { allowlist = domains } }

on_run :
    (w : World) (f : List String → List String)
    → w.faults ≡ []
    → on_allowlist f w ≡ (ok tt, with_list w (f w.db.allowlist))
unfolding on_allowlist
on_run w f quiet = execute_run w quiet _

reset_run : (w : World) → w.faults ≡ [] → reset_allowlist w ≡ (ok tt, with_list w ("*" ∷ []))
unfolding reset_allowlist
reset_run w quiet = bind_run _ _ w _ tt (on_run w _ quiet) ∙ on_run (with_list w []) _ quiet

allow_run :
    (w : World) (domain : String)
    → w.faults ≡ []
    → (domain == "") ≡ false
    → allow_domain domain w ≡ (ok tt, with_list w (allowed domain w.db.allowlist))
unfolding allow_domain guard
allow_run w domain quiet e = bind_run _ _ w w tt (rw e refl) ∙ wildcard (domain == "*")
  where
    wildcard :
        (b : Bool)
        → (if b
              then reset_allowlist
              else (ignore (on_allowlist (delete_domain "*"))
                  >> on_allowlist (insert_domain domain)))
            w
          ≡ (
            ok tt,
            with_list w
                (if b then "*" ∷ [] else insert_domain domain (delete_domain "*" w.db.allowlist)),
          )
    wildcard true = reset_run w quiet
    wildcard false =
        bind_run _ _ w _ tt (ignore_run _ w _ _ (on_run w _ quiet)) ∙ on_run (with_list w _) _ quiet

-- An ordered table is empty only if the table is.
insert_row-cons :
    (x : String) (xs : List String)
    → (y : String) × (ys : List String) × (insert_row text_le x xs ≡ y ∷ ys)
insert_row-cons x [] = (x, [], refl)
insert_row-cons x (y ∷ ys) = elim (Bool-cases (text_le x y)) [
  | inl e ↦ (x, y ∷ ys, rw e refl)
  | inr e ↦ (y, insert_row text_le x ys, rw e refl)
]

empty_run :
    (ds : List String) (w : World)
    → w.faults ≡ []
    → w.db.allowlist ≡ ds
    → reset_if_empty (ok (order_by text_le ds)) w ≡ (ok tt, with_list w (or_wildcard ds))
unfolding pure
empty_run [] w quiet e = reset_run w quiet
empty_run (d ∷ rest) w quiet e =
    let (y, ys, f) = insert_row-cons d (order_by text_le rest) in rw (f, sym e) refl

disallow_run :
    (w : World) (domain : String)
    → w.faults ≡ []
    → (domain == "") ≡ false
    → disallow_domain domain w
      ≡ (ok tt, with_list w (or_wildcard (delete_domain domain w.db.allowlist)))
unfolding disallow_domain guard list_allowed_domains
disallow_run w domain quiet e =
    bind_run _ _ w w tt (rw e refl)
    ∙ bind_run _ _ w _ tt (on_run w _ quiet)
    ∙ attempt_run _ reset_if_empty (with_list w (delete_domain domain w.db.allowlist)) _ _
        (query_run _ quiet _)
    ∙ empty_run (delete_domain domain w.db.allowlist)
        (with_list w (delete_domain domain w.db.allowlist)) quiet refl

lists-delete_domain :
    (e d : String) (ds : List String) → lists e (delete_domain d ds) ≡ not (e == d) && lists e ds
lists-delete_domain e d [] = ground arith
lists-delete_domain e d (s ∷ ds) =
    ground (arith, eq_iff s d, eq_iff s e, eq_iff e d, lists-delete_domain e d ds)

lists-snoc : (e d : String) (ds : List String) → lists e (ds ++ d ∷ []) ≡ (e == d) || lists e ds
lists-snoc e d [] = ground (arith, eq_iff e d, eq_iff d e)
lists-snoc e d (s ∷ ds) = ground (arith, lists-snoc e d ds)

lists-same : (e d : String) (ds : List String) → e ≡ d → lists e ds ≡ lists d ds
lists-same e d ds h = rw h refl

lists-insert_domain :
    (e d : String) (ds : List String) → lists e (insert_domain d ds) ≡ (e == d) || lists e ds
lists-insert_domain e d ds = ground (arith, eq_iff e d, lists-snoc e d ds, lists-same e d ds)

-- The domains that AllowDomain leaves: the one given, and beside it the earlier ones but "*"; "*" is
-- left alone.
lists-allowed :
    (e d : String) (ds : List String)
    → lists e (allowed d ds) ≡ (e == d) || not (d == "*") && not (e == "*") && lists e ds
lists-allowed e d ds = ground (
  arith,
  eq_iff e d,
  eq_iff d e,
  eq_iff d "*",
  eq_iff e "*",
  lists-insert_domain e d (delete_domain "*" ds),
  lists-delete_domain e "*" ds,
)

-- AllowDomain of a domain that is not empty, while the driver fails nothing, succeeds and leaves the
-- domain, and beside it every earlier one but "*"; of "*" it leaves "*" alone.
pub allow_domain_lem :
    (w : World) (domain : String)
    → w.faults ≡ []
    → (domain == "") ≡ false
    → ((allow_domain domain w).0 ≡ ok tt)
      × ((e : String)
          → lists e (allow_domain domain w).1.db.allowlist
            ≡ (e == domain) || not (domain == "*") && not (e == "*") && lists e w.db.allowlist)
allow_domain_lem w domain quiet h =
    rw (allow_run w domain quiet h) (refl, λ e. lists-allowed e domain w.db.allowlist)

without_wildcard : (ds : List String) → lists "*" ds ≡ false → IsWellFormed (or_wildcard ds)
without_wildcard [] h = λ k. refl
without_wildcard (d ∷ ds) h = λ k. cc

insert-or_wildcard :
    (d : String) (ds : List String) → or_wildcard (insert_domain d ds) ≡ insert_domain d ds
insert-or_wildcard d [] = refl
insert-or_wildcard d (s ∷ ds) = either (λ xs. or_wildcard xs ≡ xs) (lists d (s ∷ ds)) refl refl

allowed-IsWellFormed : (d : String) (ds : List String) → IsWellFormed (allowed d ds)
allowed-IsWellFormed d ds = elim (Bool-cases (d == "*")) [
  | inl e ↦ rw e (λ k. refl)
  | inr e ↦
      rw (e, sym (insert-or_wildcard d (delete_domain "*" ds)))
        (without_wildcard (insert_domain d (delete_domain "*" ds)) (
          ground (
            arith,
            eq_iff "*" d,
            eq_iff d "*",
            lists-insert_domain "*" d (delete_domain "*" ds),
            lists-delete_domain "*" "*" ds,
          )))
]

well_formed-wildcard : (ds : List String) → IsWellFormed ds → lists "*" ds ≡ true → ds ≡ "*" ∷ []
well_formed-wildcard [] h k = cc
well_formed-wildcard (d ∷ ds) h k = h k

deleted-IsWellFormed :
    (d : String) (ds : List String)
    → IsWellFormed ds
    → IsWellFormed (or_wildcard (delete_domain d ds))
deleted-IsWellFormed d ds h = elim (Bool-cases (lists "*" ds)) [
  | inl e ↦
      rw (well_formed-wildcard ds h e)
        (either (λ xs. IsWellFormed (or_wildcard xs)) ("*" == d) (λ k. refl) (λ k. refl))
  | inr e ↦ without_wildcard (delete_domain d ds) (ground (arith, lists-delete_domain "*" d ds))
]

-- AllowDomain and DisallowDomain of a domain that is not empty keep the allowlist well-formed while
-- the driver fails nothing: it is never empty, and "*" stands alone in it.
pub allowlist-IsWellFormed :
    (w : World) (domain : String)
    → w.faults ≡ []
    → (domain == "") ≡ false
    → IsWellFormed w.db.allowlist
    → IsWellFormed (allow_domain domain w).1.db.allowlist
      × IsWellFormed (disallow_domain domain w).1.db.allowlist
allowlist-IsWellFormed w domain quiet e h =
    rw (allow_run w domain quiet e, disallow_run w domain quiet e)
      (allowed-IsWellFormed domain w.db.allowlist, deleted-IsWellFormed domain w.db.allowlist h)

-- DisallowDomain of a domain that is not empty, while the driver fails nothing, succeeds and takes
-- out the domain and no other; if that leaves nothing, it leaves "*".
pub disallow_domain_lem :
    (w : World) (domain : String)
    → w.faults ≡ []
    → (domain == "") ≡ false
    → ((disallow_domain domain w).0 ≡ ok tt)
      × (((disallow_domain domain w).1.db.allowlist ≡ "*" ∷ [])
            × ((e : String) → not (e == domain) && lists e w.db.allowlist ≡ false)
          ⊎ ((e : String)
              → lists e (disallow_domain domain w).1.db.allowlist
                ≡ not (e == domain) && lists e w.db.allowlist))
disallow_domain_lem w domain quiet e =
    rw (disallow_run w domain quiet e) (refl, left (delete_domain domain w.db.allowlist) refl)
  where
    left :
        (ds : List String)
        → delete_domain domain w.db.allowlist ≡ ds
        → ((or_wildcard ds ≡ "*" ∷ [])
            × ((e : String) → not (e == domain) && lists e w.db.allowlist ≡ false))
          ⊎ ((e : String) → lists e (or_wildcard ds) ≡ not (e == domain) && lists e w.db.allowlist)
    left [] f = inl (refl, λ e. sym (lists-delete_domain e domain w.db.allowlist) ∙ ap (lists e) f)
    left (d ∷ ds) f = inr (λ e. ap (lists e) (sym f) ∙ lists-delete_domain e domain w.db.allowlist)
