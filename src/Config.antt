-- ===== src/Config.antt =====
-- The configuration that normalize.js builds and that the store reads: `config.clusters` with
-- their services, and `config.nodes`. Objects used as tables are `Map`s. A property that the code
-- compares with `null` is an `Option`; one that it only tests is a `Bool`.
use ryba.Base.{String, Bool, List, Option}
use ryba.Js.{Value, Fields}
use ryba.Assoc.{Map}
use ryba.Text.{◌^^◌}

-- An entry of `service.deps`.
pub record Dep : Type 0 where
  pub module_name : Option String
  pub service : Option String
  pub cluster : String
  pub auto : Bool
  pub required : Bool
  pub local : Bool
  pub single : Bool
  pub disabled : Option Bool

-- An entry of `node.services`.
pub record NodeService : Type 0 where
  pub cluster : String
  pub service : String
  pub module_name : Option String
  pub options : Value

-- A node; `others` holds the properties that are only passed on, such as `tags` and `ip`.
pub record Node : Type 0 where
  pub id : String
  pub fqdn : String
  pub hostname : String
  pub services : List NodeService
  pub others : Fields

-- An entry of `service.instances`, with its copy of the node.
pub record Instance : Type 0 where
  pub id : String
  pub cluster : String
  pub service : String
  pub node : Node
  pub options : Value

pub record Service : Type 0 where
  pub id : String
  pub cluster : String
  pub module_name : String
  pub deps : Map Dep
  pub affinity : List Fields
  pub commands : Map (List Value)
  pub nodes : Map Value
  pub options : Value
  pub instances : List Instance
  pub configure : Value
  pub plugin : Value

pub record Cluster : Type 0 where
  pub id : String
  pub services : Map Service

pub record Config : Type 0 where
  pub clusters : Map Cluster
  pub nodes : Map Node
  pub graph : List String

-- `${cluster}:${service}`
abbrev pub service_key : String → String → String
service_key cluster service = cluster ^^ (":" ^^ service)
