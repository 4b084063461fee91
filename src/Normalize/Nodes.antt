-- ===== src/Normalize/Nodes.antt =====
-- The pass "Normalize nodes" of normalize.js. A node of the configuration is `true` or an object
-- whose `services` are absent, an array, or an object by `cluster:service`.
pub mod Laws
use ryba.Base.{
  ℕ, String, ◌==◌, Bool, true, false, List, [], ◌∷◌, map, Option, none, some, if◌then◌else◌,
}
use ryba.Js.{Value, Fields, end, Result, ok, err, ◌>>=◌, ◌>>◌, type_error, node_invalid_service}
use ryba.Text.{split, colon}
use ryba.Assoc.{Map, find}
use ryba.Config.{Config, Cluster, Node, NodeService}
use ryba.Store.{pair_of}
use ryba.Normalize.Each.{each_entry}

pub data GivenServices : Type 0 where
  absent : GivenServices
  listed : List NodeService → GivenServices
  keyed : Map Value → GivenServices

pub record GivenNode : Type 0 where
  pub id : Option String
  pub fqdn : Option String
  pub hostname : Option String
  pub services : GivenServices
  pub others : Fields

pub data NodeEntry : Type 0 where
  flag : NodeEntry
  given : GivenNode → NodeEntry

-- `if (node === true) node = {}`
abbrev pub node_object : NodeEntry → GivenNode
node_object (given n) = n
node_object flag = record {
  id = none;
  fqdn = none;
  hostname = none;
  services = absent;
  others = end;
}

-- `x ?= default`
abbrev pub get_or : Option String → String → String
get_or none default = default
get_or (some s) default = s

-- `{cluster: cname, service: sname, options: service}` with `[cname, sname] = sid.split(":")`; a
-- missing name is empty.
unfoldable pub keyed_service : String × Value → NodeService
keyed_service (sid, options) = record {
  cluster = (pair_of (split colon sid)).0;
  service = (pair_of (split colon sid)).1;
  module_name = none;
  options = options;
}

unfoldable pub services_array : GivenServices → List NodeService
services_array absent = []
services_array (listed services) = services
services_array (keyed services) = map keyed_service services

abbrev pub dot_code : ℕ
dot_code = b'.'

unfoldable pub node_defaults : String → NodeEntry → Node
node_defaults nname entry =
    let n = node_object entry in
    record {
      id = get_or n.id nname;
      fqdn = get_or n.fqdn nname;
      hostname = get_or n.hostname (pair_of (split dot_code nname)).0;
      services = services_array n.services;
      others = n.others;
    }

-- The loop "Validate service registration": only an entry that names a service is looked up.
unfoldable pub check_registration : Map Cluster → String → NodeService → Result (Unit {0})
check_registration clusters node s =
    if s.service == "" then ok tt else elim (find s.cluster clusters) [
      | none ↦ err type_error
      | some c ↦ elim (find s.service c.services) [
        | none ↦ err (node_invalid_service node s.service s.cluster)
        | some service ↦ ok tt
      ]
    ]

unfoldable pub check_registrations : Map Cluster → String → List NodeService → Result (Unit {0})
check_registrations clusters node [] = ok tt
check_registrations clusters node (s ∷ services) =
    check_registration clusters node s >>= λ _. check_registrations clusters node services

unfoldable pub normalize_node : Map Cluster → String → NodeEntry → Result Node
normalize_node clusters nname entry =
    let n = node_defaults nname entry in check_registrations clusters n.id n.services >>= λ _. ok n

unfoldable pub normalize_nodes : Map Cluster → Map NodeEntry → Result (Map Node)
normalize_nodes clusters entries = each_entry (normalize_node clusters) entries
