-- ===== src/Adapters/Registry/Kept.antt =====
-- The service keeps one adapter for each name.
use lidenal85_blip.Base.{Option-cases, string_eq, String, ◌≡◌, refl, inl, inr, Option, some, arith}
use lidenal85_blip.Base.Dict.{lookup, lookup-insert_self}
use lidenal85_blip.Contracts.Floats.{ok}
use lidenal85_blip.Adapters.Registry.{
  Registry, get_class, create_adapter, AdapterService, get_adapter, AdapterConfig, Adapter,
}

is_kept :
    (registry : Registry) (name : String) (config : Option AdapterConfig) (service : AdapterService)
    {service' : AdapterService} {a : Adapter}
    → get_adapter registry name config service ≡ (service', ok a)
    → lookup name service' ≡ some a
unfolding get_adapter create_adapter
is_kept registry name config service {service'} {a} h = elim (Option-cases (lookup name service)) [
  | inl new ↦ elim (Option-cases (get_class name registry)) [
    | inl unknown ↦ ground arith
    | inr (class, known) ↦ ground (arith, lookup-insert_self name a service)
  ]
  | inr (old, found) ↦ ground arith
]

-- An adapter that the service gave for a name is given again, with any configuration and whatever
-- is registered by then, and the service stays as it is.
pub get_adapter-again :
    (registry registry' : Registry) (name : String) (config config' : Option AdapterConfig)
    (service : AdapterService) {service' : AdapterService} {a : Adapter}
    → get_adapter registry name config service ≡ (service', ok a)
    → get_adapter registry' name config' service' ≡ (service', ok a)
unfolding get_adapter
get_adapter-again registry registry' name config config' service h =
    rw (is_kept registry name config service h) refl
