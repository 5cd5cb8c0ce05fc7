-- ===== src/Loaders/Outcome.antt =====
-- What a loader returns, and what it reads. The viper library reads and decodes a definition file; it
-- is a parameter.
use eris_cli.Base.{Bool, Option}
use eris_cli.Strings.{Text}
use eris_cli.Definitions.{ServiceDefinition, Chain}

pub data LoadError : Type 0 where
  -- the type and the name of the definition
  unreadable : Text → Text → LoadError
  not_decoded no_service no_image no_chain : LoadError

pub data Outcome {ℓ} (A : Type ℓ) : Type ℓ where
  loaded : A → Outcome A
  refused : LoadError → Outcome A
  panicked : Outcome A

-- `ReadInConfig` in the directory of a type of definition, `Marshal` into a struct, and `GetBool`.
pub record Viper : Type 1 where
  pub File : Type 0
  pub read : Text → Text → Option File
  pub into_service : File → ServiceDefinition → Option ServiceDefinition
  pub into_chain : File → Chain → Option Chain
  pub get_bool : Text → File → Bool

-- What a loader reads besides the daemon.
pub record Sources : Type 0 where
  pub git_user : Option Text
  -- whether the daemon's version is at least `DVER_MIN`
  pub links_supported : Bool
  -- `VERSION`
  pub version : Text

module _ {A B : Type 0} where
  infixl 5 ◌>>=◌
  abbrev pub ◌>>=◌ : Outcome A → (A → Outcome B) → Outcome B
  loaded a >>= f = f a
  refused e >>= f = refused e
  panicked >>= f = panicked
