-- ===== src/Cli.antt =====
-- The interfaces and the secret of the command line, in crates/cli/src/lib.rs. iroh's secret keys are a
-- parameter, with the keys that a text stands for.
use irohsion.Prelude.{ℕ, ◌≢◌, List, [], ◌∷◌, Option, none, some, Result, ok, err}
use irohsion.Transport.Fields.{split}

abbrev colon : ℕ
colon = b':'

pub data SpecError : Type 0 where
  empty_name : SpecError
  empty_label : SpecError
  invalid_secret : SpecError
  wrong_shape : SpecError

module _ (SecretKey : Type 0) (parse_key : List ℕ → Option SecretKey) where
  pub record InterfaceSpec : Type 0 where
    pub name : List ℕ
    pub secret : Option SecretKey
    pub label : Option (List ℕ)

  unfoldable pub key_of : List ℕ → Result SpecError SecretKey
  key_of text = elim (parse_key text) [ none ↦ err invalid_secret | some key ↦ ok key ]

  abbrev with_secret :
      List ℕ → Option (List ℕ) → Result SpecError SecretKey → Result SpecError InterfaceSpec
  with_secret name label (err e) = err e
  with_secret name label (ok key) = ok (record { name = name; secret = some key; label = label })

  -- The `match` on the parts.
  unfoldable pub spec_of : List (List ℕ) → Result SpecError InterfaceSpec
  unfolding key_of
  spec_of ([] ∷ []) = err empty_name
  spec_of ((c ∷ name) ∷ []) = ok (record { name = c ∷ name; secret = none; label = none })
  spec_of ([] ∷ secret ∷ []) = err empty_name
  spec_of ((c ∷ name) ∷ secret ∷ []) = with_secret (c ∷ name) none (key_of secret)
  spec_of ([] ∷ secret ∷ label ∷ []) = err empty_name
  spec_of ((c ∷ name) ∷ secret ∷ [] ∷ []) = err empty_label
  spec_of ((c ∷ name) ∷ [] ∷ (l ∷ label) ∷ []) =
      ok (record { name = c ∷ name; secret = none; label = some (l ∷ label) })
  spec_of ((c ∷ name) ∷ (s ∷ secret) ∷ (l ∷ label) ∷ []) =
      with_secret (c ∷ name) (some (l ∷ label)) (key_of (s ∷ secret))
  spec_of _ = err wrong_shape

  -- `InterfaceSpec::from_str`
  unfoldable pub parse_interface : List ℕ → Result SpecError InterfaceSpec
  unfolding spec_of
  parse_interface text = spec_of (split colon text)

  pub data SecretArg : Type 0 where
    generate : SecretArg
    provided_key : SecretKey → SecretArg

  abbrev provided_or : Option SecretKey → Result SpecError SecretArg
  provided_or none = err invalid_secret
  provided_or (some key) = ok (provided_key key)

  -- `SecretArg::from_str`
  unfoldable pub parse_secret : List ℕ → Result SpecError SecretArg
  parse_secret [] = ok generate
  parse_secret (c ∷ text) = provided_or (parse_key (c ∷ text))

  unfoldable pub provided : SecretArg → Option SecretKey
  provided generate = none
  provided (provided_key key) = some key

  -- `SecretArg::resolve`, with the key that would be generated.
  unfoldable pub resolve : SecretKey → SecretArg → SecretKey
  unfolding provided
  resolve generated arg = elim (provided arg) [ none ↦ generated | some key ↦ key ]

  -- A name of its own, and a label of its own if one is set.
  abbrev pub IsNamed : InterfaceSpec → Type 0
  IsNamed spec = (spec.name ≢ []) × (spec.label ≢ some [])

  abbrev AreNamed : Result SpecError InterfaceSpec → Type 0
  AreNamed (err e) = Unit {0}
  AreNamed (ok spec) = IsNamed spec

  with_secret-AreNamed :
      (c : ℕ) (name : List ℕ) (label : Option (List ℕ)) (key : Result SpecError SecretKey)
      → label ≢ some []
      → AreNamed (with_secret (c ∷ name) label key)
  with_secret-AreNamed c name label (err e) h = tt
  with_secret-AreNamed c name label (ok key) h = (λ e. cc, h)

  spec_of-AreNamed : (parts : List (List ℕ)) → AreNamed (spec_of parts)
  unfolding spec_of
  spec_of-AreNamed [] = tt
  spec_of-AreNamed ([] ∷ []) = tt
  spec_of-AreNamed ((c ∷ name) ∷ []) = (λ e. cc, λ e. cc)
  spec_of-AreNamed ([] ∷ secret ∷ []) = tt
  spec_of-AreNamed ((c ∷ name) ∷ secret ∷ []) =
      with_secret-AreNamed c name none (key_of secret) (λ e. cc)
  spec_of-AreNamed ([] ∷ secret ∷ label ∷ []) = tt
  spec_of-AreNamed ((c ∷ name) ∷ [] ∷ [] ∷ []) = tt
  spec_of-AreNamed ((c ∷ name) ∷ (s ∷ secret) ∷ [] ∷ []) = tt
  spec_of-AreNamed ((c ∷ name) ∷ [] ∷ (l ∷ label) ∷ []) = (λ e. cc, λ e. cc)
  spec_of-AreNamed ((c ∷ name) ∷ (s ∷ secret) ∷ (l ∷ label) ∷ []) =
      with_secret-AreNamed c name (some (l ∷ label)) (key_of (s ∷ secret)) (λ e. cc)
  spec_of-AreNamed ([] ∷ secret ∷ label ∷ more ∷ rest) = tt
  spec_of-AreNamed ((c ∷ name) ∷ [] ∷ [] ∷ more ∷ rest) = tt
  spec_of-AreNamed ((c ∷ name) ∷ (s ∷ secret) ∷ [] ∷ more ∷ rest) = tt
  spec_of-AreNamed ((c ∷ name) ∷ [] ∷ (l ∷ label) ∷ more ∷ rest) = tt
  spec_of-AreNamed ((c ∷ name) ∷ (s ∷ secret) ∷ (l ∷ label) ∷ more ∷ rest) = tt

  -- An interface that the command line accepts has a name that is not empty, and no empty label.
  pub parse_interface-AreNamed : (text : List ℕ) → AreNamed (parse_interface text)
  unfolding parse_interface
  parse_interface-AreNamed text = spec_of-AreNamed (split colon text)
