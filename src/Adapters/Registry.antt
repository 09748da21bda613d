-- ===== src/Adapters/Registry.antt =====
-- adapters/registry.py: the classes of the adapters by name, the service that keeps one adapter
-- for each name, and what bootstrap/pipeline.py makes of them for a source in every cycle.
pub mod Rebuilt
pub mod Kept
use lidenal85_blip.Base.{
  if◌then◌else◌, string_eq, ℕ, String, ◌<>◌, Bool, true, false, Option, none, some, List, [], ◌∷◌,
}
use lidenal85_blip.Base.Dict.{Dict, keys, lookup, insert}
use lidenal85_blip.Contracts.Floats.{Outcome, Floats, value_error, ok, raise}
use lidenal85_blip.Adapters.Items.{Python}
use lidenal85_blip.Adapters.Fetch.{
  breaker_config, fetch_surveys, Platform, Network, AdapterResult, prolific, cloudresearch,
  respondent, fetch_prolific, fetch_cloudresearch, fetch_respondent,
}
use lidenal85_blip.Hardening.CircuitBreaker.{CircuitBreaker, init}

pub data AdapterClass : Type 0 where
  prolific_adapter cloudresearch_adapter respondent_adapter : AdapterClass

-- the fields of an AdapterConfig that are not left at their defaults, and the time limit
pub record AdapterConfig : Type 0 where
  pub source : String
  pub timeout_seconds : ℕ

pub record Adapter : Type 0 where
  pub class_of : AdapterClass
  pub config : AdapterConfig
  pub is_initialized : Bool
  pub breaker : CircuitBreaker

abbrev pub Registry : Type 0
Registry = Dict String AdapterClass

-- `AdapterRegistry.register`, `get` and `list_sources`
unfoldable pub register : String → AdapterClass → Registry → Registry
register name class registry = insert name class registry

unfoldable pub get_class : String → Registry → Option AdapterClass
get_class name registry = lookup name registry

unfoldable pub list_sources : Registry → List String
list_sources registry = keys registry

-- The three modules, by whether importing them raises no ImportError.
pub record Importable : Type 0 where
  pub has_prolific : Bool
  pub has_cloudresearch : Bool
  pub has_respondent : Bool

register_if : Bool → String → AdapterClass → Registry → Registry
unfolding register
register_if importable name class registry =
    if importable then register name class registry else registry

unfoldable pub register_adapters : Importable → Registry → Registry
unfolding register_if
register_adapters i registry = register_if i.has_respondent "respondent" respondent_adapter (
    register_if i.has_cloudresearch "cloudresearch" cloudresearch_adapter
      (register_if i.has_prolific "prolific" prolific_adapter registry))

-- The constructors of the three classes: `BaseAdapter.__init__` and a breaker of their own.
unfoldable pub new_adapter : AdapterClass → AdapterConfig → Adapter
new_adapter class config = record {
  class_of = class;
  config = config;
  is_initialized = false;
  breaker = init breaker_config;
}

-- `initialize` and `close`, the same in the three classes
unfoldable pub initialize : Adapter → Adapter
initialize a = record a { is_initialized = true }

unfoldable pub close : Adapter → Adapter
close a = record a { is_initialized = false }

created : String → AdapterConfig → Option AdapterClass → Outcome Adapter
created name config none =
    raise (record { class_of = value_error; text = "Adapter '" <> (name <> "' not registered") })
created name config (some class) = ok (new_adapter class config)

-- `create_adapter`
unfoldable pub create_adapter : Registry → String → AdapterConfig → Outcome Adapter
unfolding created get_class
create_adapter registry name config = created name config (get_class name registry)

-- `AdapterService`: its active adapters, by name.
abbrev pub AdapterService : Type 0
AdapterService = Dict String Adapter

config_or_default : String → Option AdapterConfig → AdapterConfig
config_or_default name none = record { source = name; timeout_seconds = 30 }
config_or_default name (some config) = config

keep_active : String → AdapterService → Outcome Adapter → AdapterService × Outcome Adapter
keep_active name service (ok a) = (insert name a service, ok a)
keep_active name service (raise e) = (service, raise e)

found_or_new :
    Registry
    → String
    → Option AdapterConfig
    → AdapterService
    → Option Adapter
    → AdapterService × Outcome Adapter
found_or_new registry name config service (some a) = (service, ok a)
found_or_new registry name config service none =
    keep_active name service (create_adapter registry name (config_or_default name config))

-- `get_adapter`
unfoldable pub get_adapter :
    Registry → String → Option AdapterConfig → AdapterService → AdapterService × Outcome Adapter
unfolding found_or_new keep_active config_or_default
get_adapter registry name config service =
    found_or_new registry name config service (lookup name service)

unfoldable pub closed_adapters : AdapterService → List Adapter
closed_adapters [] = []
closed_adapters ((name, a) ∷ service) = close a ∷ closed_adapters service

-- `close_all`: the adapters that it closed, and the service after it
unfoldable pub close_all : AdapterService → List Adapter × AdapterService
unfolding closed_adapters
close_all service = (closed_adapters service, [])

-- The adapter of `_make_orchestrator`, from a service that is new with every call.
unfoldable pub make_adapter : Registry → String → Outcome Adapter
make_adapter registry source =
    (get_adapter registry source (some (record { source = source; timeout_seconds = 30 })) []).1

module _ (N : Floats) (py : Python N) where
  fetch_of :
      AdapterClass → Network N → ℕ → ℕ → CircuitBreaker → CircuitBreaker × AdapterResult N.Float
  fetch_of prolific_adapter = fetch_prolific N py
  fetch_of cloudresearch_adapter = fetch_cloudresearch N py
  fetch_of respondent_adapter = fetch_respondent N py

  -- `adapter.fetch_surveys`: the adapter after it, and the result
  unfoldable pub fetch_from : Network N → ℕ → ℕ → Adapter → Adapter × AdapterResult N.Float
  unfolding fetch_of
  fetch_from net now later a =
      let (b, result) = fetch_of a.class_of net now later a.breaker in
      (record a { breaker = b }, result)
