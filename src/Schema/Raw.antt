-- ===== src/Schema/Raw.antt =====
-- What `json.MarshalIndent` makes of the raw JSON of a description: it writes a `json.RawMessage`
-- with its own line breaks and indentation, so the text that is read back is another one.
use ovh_cli.Prelude.{String, Option, none, some, [], ◌∷◌, ◌≡◌, refl, arith}
use ovh_cli.Prelude.Dict.{Dict, lookup}
use ovh_cli.Errors.{ok}
use ovh_cli.Platform.Codec.{Codec}
use ovh_cli.Schema.Types.{MethodSpec, PathSpec, Service, ApiSpace}
use ovh_cli.Schema.Interface.{is_found}
use ovh_cli.Schema.Querier.{lookup_path}

-- The fields that hold raw JSON. They stand at different depths.
pub data RawField : Type 0 where
  params : RawField
  response : RawField
  models : RawField

unfoldable pub map_values {ℓ κ} : {A : Type ℓ} {B : Type κ} → (A → B) → Dict A → Dict B
map_values f [] = []
map_values f ((k, a) ∷ rest) = (k, f a) ∷ map_values f rest

map_option {ℓ κ} : {A : Type ℓ} {B : Type κ} → (A → B) → Option A → Option B
map_option f none = none
map_option f (some a) = some (f a)

lookup-map_values {ℓ κ} :
    {A : Type ℓ} {B : Type κ} (f : A → B) (k : String) (d : Dict A)
    → lookup k (map_values f d) ≡ map_option f (lookup k d)
unfolding lookup map_values map_option
lookup-map_values f k [] = refl
lookup-map_values f k ((j, a) ∷ rest) = ground (arith, lookup-map_values f k rest)

module _ (reindent : RawField → String → String) where
  abbrev reindented_method : MethodSpec → MethodSpec
  reindented_method m = record m {
    params = reindent params m.params;
    response = reindent response m.response;
  }

  abbrev reindented_path : PathSpec → PathSpec
  reindented_path methods = map_values reindented_method methods

  abbrev reindented_service : Service → Service
  reindented_service svc = record svc {
    paths = map_values reindented_path svc.paths;
    models = reindent models svc.models;
  }

  -- The same services with every raw text as the encoder writes it.
  abbrev pub reindented_services : Dict Service → Dict Service
  reindented_services services = map_values reindented_service services

  abbrev pub reindented : ApiSpace → ApiSpace
  reindented space = record space { services = reindented_services space.services }

  -- The same paths are found.
  pub lookup_path-reindented :
      (path : String) (services : Dict Service)
      → is_found (lookup_path path (reindented_services services))
        ≡ is_found (lookup_path path services)
  unfolding lookup_path map_values map_option
  lookup_path-reindented path [] = refl
  lookup_path-reindented path ((name, svc) ∷ rest) =
      ground
        (arith, lookup_path-reindented path rest, lookup-map_values reindented_path path svc.paths)

-- A description that was encoded decodes to itself, up to the layout of its raw JSON.
pub record IsReindenting {B : Type 0} (c : Codec B ApiSpace) (reindent : RawField → String → String)
    : Type 0 where
  pub unmarshal-marshal :
      (a : ApiSpace) (b : B) → c.marshal a ≡ ok b → c.unmarshal b ≡ ok (reindented reindent a)
