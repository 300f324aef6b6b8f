-- ===== src/Paths/Escape.antt =====
-- Which names leave the directory that is meant to hold them.
use agentary.Prelude.{
  String, ◌≡◌, refl, ap, ◌∙◌, List, [], ◌∷◌, ◌++◌, split, arith, append_one, sym, false, ◌≢◌, All,
  eq_iff,
}
use mathlib.Core.List.{append-nil}
use agentary.Paths.{clean_onto, without_last, agent_dir, safe_name, starts_with_parts, is_under}
use agentary.Paths.Clean.{IsName}

without_last-snoc : (xs : List String) (x : String) → without_last (xs ++ x ∷ []) ≡ xs
without_last-snoc [] x = refl
without_last-snoc (y ∷ []) x = refl
without_last-snoc (y ∷ z ∷ rest) x = ap (λ l. y ∷ l) (without_last-snoc (z ∷ rest) x)

-- A part that is a name goes on the path.
clean_onto-name :
    (done rest : List String) (p : String)
    → IsName p
    → clean_onto done (p ∷ rest) ≡ clean_onto (done ++ p ∷ []) rest
unfolding clean_onto
clean_onto-name done rest p n = ground (arith, n)

clean_onto-end : (done : List String) → clean_onto done [] ≡ done
unfolding clean_onto
clean_onto-end done = refl

clean_onto-up :
    (done rest : List String) → clean_onto done (".." ∷ rest) ≡ clean_onto (without_last done) rest
unfolding clean_onto
clean_onto-up done rest = refl

-- The directory of an agent whose name is one ordinary part is the one of that name below
-- "agents" in the team's.
pub agent_dir-named :
    (team : List String) (name part : String)
    → split 47 (safe_name name) ≡ part ∷ []
    → IsName part
    → agent_dir team name ≡ team ++ "agents" ∷ part ∷ []
unfolding agent_dir
agent_dir-named team name part s n = rw s (
    clean_onto-name team (part ∷ []) "agents" refl
    ∙ clean_onto-name (team ++ "agents" ∷ []) [] part n
    ∙ clean_onto-end ((team ++ "agents" ∷ []) ++ part ∷ [])
    ∙ append_one team (part ∷ []) "agents")

clean_onto-names : (done ps : List String) → All IsName ps → clean_onto done ps ≡ done ++ ps
clean_onto-names done [] h = clean_onto-end done ∙ sym (append-nil done)
clean_onto-names done (p ∷ ps) (n, h) =
    clean_onto-name done ps p n ∙ clean_onto-names (done ++ p ∷ []) ps h ∙ append_one done ps p

-- Beside a directory nothing is below it.
starts_beside :
    (home rest : List String) (own other : String)
    → other ≢ own
    → starts_with_parts (home ++ own ∷ []) (home ++ other ∷ rest) ≡ false
unfolding starts_with_parts
starts_beside [] rest own other n = ground (arith, n, eq_iff own other)
starts_beside (h ∷ home) rest own other n = rw (starts_beside home rest own other n) ground arith

beside :
    (home rest : List String) (own other : String)
    → other ≢ own
    → is_under (home ++ own ∷ []) (home ++ other ∷ rest) ≡ false
unfolding is_under
beside [] rest own other n = starts_beside [] rest own other n
beside (h ∷ home) rest own other n = starts_beside (h ∷ home) rest own other n

leaves :
    (team rest : List String) (name : String)
    → split 47 (safe_name name) ≡ ".." ∷ ".." ∷ rest
    → agent_dir team name ≡ clean_onto (without_last team) rest
unfolding agent_dir
leaves team rest name s = rw s (
    clean_onto-name team (".." ∷ ".." ∷ rest) "agents" refl
    ∙ clean_onto-up (team ++ "agents" ∷ []) (".." ∷ rest)
    ∙ ap (λ d. clean_onto d (".." ∷ rest)) (without_last-snoc team "agents")
    ∙ clean_onto-up team rest)

-- An agent whose name, made safe and split at "/", is "..", "..", another name than that of the
-- team's directory and perhaps further names: its directory is the one of those names beside the
-- team's, and not below the team's.
pub agent_dir_escapes :
    (home rest : List String) (own other name : String)
    → split 47 (safe_name name) ≡ ".." ∷ ".." ∷ other ∷ rest
    → All IsName (other ∷ rest)
    → other ≢ own
    → (agent_dir (home ++ own ∷ []) name ≡ home ++ other ∷ rest)
      × (is_under (home ++ own ∷ []) (agent_dir (home ++ own ∷ []) name) ≡ false)
agent_dir_escapes home rest own other name s names n =
    (there, ap (λ d. is_under (home ++ own ∷ []) d) there ∙ beside home rest own other n)
  where
    there : agent_dir (home ++ own ∷ []) name ≡ home ++ other ∷ rest
    there =
        leaves (home ++ own ∷ []) (other ∷ rest) name s
        ∙ ap (λ d. clean_onto d (other ∷ rest)) (without_last-snoc home own)
        ∙ clean_onto-names home (other ∷ rest) names
