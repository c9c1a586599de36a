-- ===== src/Factory/Merge.antt =====
-- core/agent/factory.py: which loader a value of a configuration comes from.
use kuva_ai.Prelude.{
  ◌≡◌, refl, ◌∙◌, String, Bool, true, false, Option, none, some, List, [], ◌∷◌, ◌==◌, contains,
  if◌then◌else◌, Bool-cases, inl, inr,
}
use kuva_ai.Dict.{Dict, lookup, insert, lookup-insert}
use kuva_ai.Exec.{Result, ok}
use kuva_ai.Factory.{Error, Outside}
use kuva_ai.Factory.Config.{update, loaded, skip_or, load_all}

-- The second, where it is there, else the first.
abbrev pub or_else : Option String → Option String → Option String
or_else o none = o
or_else o (some v) = some v

-- The value that an update sets for a key, the last of them
unfoldable pub last_value : String → Dict String → Option String
last_value k [] = none
last_value k ((j, v) ∷ d) = or_else (if j == k then some v else none) (last_value k d)

or_else_assoc : (a b c : Option String) → or_else (or_else a b) c ≡ or_else a (or_else b c)
or_else_assoc a b none = refl
or_else_assoc a b (some v) = refl

lookup-update :
    (k : String) (d e : Dict String) → lookup k (update d e) ≡ or_else (lookup k d) (last_value k e)
unfolding update last_value
lookup-update k d [] = refl
lookup-update k d ((j, v) ∷ e) = lookup-update k (insert j v d) e ∙ elim (Bool-cases (j == k)) [
  | inl h ↦ rw (lookup-insert j k v d, h) (or_else_assoc (lookup k d) (some v) (last_value k e))
  | inr h ↦ rw (lookup-insert j k v d, h) (or_else_assoc (lookup k d) none (last_value k e))
]

module _ (out : Outside) (source k : String) where
  abbrev pub value_of : Option (Dict String) → Option String
  value_of none = none
  value_of (some d) = last_value k d

  -- The value from the last loader of the list that is there and gives one.
  unfoldable pub last_loaded : List String → List String → Option String
  last_loaded loaders [] = none
  last_loaded loaders (n ∷ ns) =
      or_else (if contains n loaders then value_of (out.load n source) else none)
        (last_loaded loaders ns)

  step :
      (b : Bool) (o : Option (Dict String)) (strict : Bool) (d r : Dict String)
      (later : Option String) (rest : Dict String → Result Error (Dict String))
      → ((e : Dict String) → rest e ≡ ok r → lookup k r ≡ or_else (lookup k e) later)
      → skip_or out b rest (loaded out o strict d) d ≡ ok r
      → lookup k r ≡ or_else (lookup k d) (or_else (if b then value_of o else none) later)
  step false o strict d r later rest ih h = ih d h ∙ or_else_assoc (lookup k d) none later
  step true none true d r later rest ih h = absurd (cc)
  step true none false d r later rest ih h = ih d h ∙ or_else_assoc (lookup k d) none later
  step true (some e) strict d r later rest ih h =
      ih (update d e) h
      ∙ rw (lookup-update k d e) (or_else_assoc (lookup k d) (last_value k e) later)

  load_all-last :
      (loaders ns : List String) (strict : Bool) (d r : Dict String)
      → load_all out loaders ns strict source d ≡ ok r
      → lookup k r ≡ or_else (lookup k d) (last_loaded loaders ns)
  unfolding load_all last_loaded
  load_all-last loaders [] strict d r h = let same : d ≡ r = cc in rw same refl
  load_all-last loaders (n ∷ ns) strict d r h =
      step (contains n loaders) (out.load n source) strict d r (last_loaded loaders ns)
        (load_all out loaders ns strict source) (λ e g. load_all-last loaders ns strict e r g) h

  -- The configuration that is loaded has each value from the last loader in the order of priority that is
  -- set up and gives one.
  pub load_all-priority :
      (loaders ns : List String) (strict : Bool) (r : Dict String)
      → load_all out loaders ns strict source [] ≡ ok r
      → lookup k r ≡ last_loaded loaders ns
  unfolding lookup
  load_all-priority loaders ns strict r h =
      load_all-last loaders ns strict [] r h ∙ or_none (last_loaded loaders ns)
    where
      or_none : (o : Option String) → or_else none o ≡ o
      or_none none = refl
      or_none (some v) = refl
