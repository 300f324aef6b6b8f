-- ===== src/Paths/Clean.antt =====
-- A cleaned path has no empty part and no dots.
use agentary.Prelude.{
  String, false, ◌||◌, ◌≡◌, List, [], ◌∷◌, ◌++◌, ◌==◌, All, All-snoc, Bool-cases, inl, inr, arith,
  split, cut_prefix, Option, none, some,
}
use agentary.Paths.{clean_onto, without_last, join, absolute}

-- A part that names a file or a directory.
abbrev pub IsName : String → Type 0
IsName p = (p == "" || p == "." || p == "..") ≡ false

without_last-All : (xs : List String) → All IsName xs → All IsName (without_last xs)
without_last-All [] h = tt
without_last-All (p ∷ []) h = tt
without_last-All (p ∷ q ∷ rest) h = (h.0, without_last-All (q ∷ rest) h.1)

clean_onto-All : (done ps : List String) → All IsName done → All IsName (clean_onto done ps)
unfolding clean_onto
clean_onto-All done [] h = h
clean_onto-All done (p ∷ rest) h = elim (Bool-cases (p == "" || p == ".")) [
  | inl e ↦ rw e (clean_onto-All done rest h)
  | inr e ↦ elim (Bool-cases (p == "..")) [
    | inl f ↦ rw (e, f) (clean_onto-All (without_last done) rest (without_last-All done h))
    | inr f ↦
        rw (e, f)
          (clean_onto-All (done ++ p ∷ []) rest (All-snoc IsName done p h (ground (arith, e, f))))
  ]
]

pub absolute-All :
    (cwd : List String) (path : String) → All IsName cwd → All IsName (absolute cwd path)
unfolding absolute
absolute-All cwd path h = of_prefix (cut_prefix "/" path)
  where
    of_prefix :
        (o : Option String)
        → All IsName (elim o [ some rest ↦ join [] rest | none ↦ join cwd path ])
    of_prefix (some rest) = clean_onto-All [] (split 47 rest) tt
    of_prefix none = clean_onto-All cwd (split 47 path) h
