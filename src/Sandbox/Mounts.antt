-- ===== src/Sandbox/Mounts.antt =====
-- The mounts in a list of bubblewrap's options, to state what internal/sandbox/sandbox.go asks for.
use agentary.Prelude.{String, Bool, ◌||◌, ◌≡◌, List, [], ◌∷◌, ◌++◌, ◌==◌, refl, if◌then◌else◌}
use agentary.Sandbox.Wrap.{restricted_args}

-- What the next word of a list of bubblewrap's options is, by its manual: an option, the value of
-- one, or the source and the target of a mount. A mount counts or not.
data Word : Type 0 where
  option : Word
  value : Word
  source : Bool → Word
  target : Bool → Word

abbrev after_option : String → String → Word
after_option kind x =
    if x == "--unshare-pid"
    then option
    else if x == "--bind" || x == "--ro-bind"
    then source (x == kind)
    else value

-- The targets of the mounts of a kind, "--bind" for those that may be written to and "--ro-bind"
-- for the others, up to the command behind "--".
mounts : String → Word → List String → List String
mounts kind w [] = []
mounts kind option (x ∷ rest) =
    let next = mounts kind (after_option kind x) rest in if x == "--" then [] else next
mounts kind value (x ∷ rest) = mounts kind option rest
mounts kind (source counts) (x ∷ rest) = mounts kind (target counts) rest
mounts kind (target counts) (x ∷ rest) =
    let next = mounts kind option rest in if counts then x ∷ next else next

pub mount_targets : String → List String → List String
mount_targets kind args = mounts kind option args

pub writable_lem :
    (home team : String) (rest : List String)
    → mount_targets "--bind" (restricted_args home team ++ "--" ∷ rest) ≡ team ∷ []
unfolding mount_targets mounts
writable_lem home team rest = refl

pub read_only_lem :
    (home team : String) (rest : List String)
    → mount_targets "--ro-bind" (restricted_args home team ++ "--" ∷ rest)
      ≡ home ∷ "/usr" ∷ "/lib" ∷ "/lib64" ∷ []
unfolding mount_targets mounts
read_only_lem home team rest = refl
