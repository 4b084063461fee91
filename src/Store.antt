-- ===== src/Store.antt =====
-- legacy/masson/lib/config/store.js: the queries on a normalised configuration. `minimatch` is the
-- package of that name.
pub mod Laws
mod Tests
use ryba.Base.{
  String, ◌==◌, Bool, true, false, not, List, [], ◌∷◌, map, Option, none, some, if◌then◌else◌,
  length, ◌=ℕ◌,
}
use ryba.Js.{
  Value, str, arr, nil, Items, to_items, array, Result, ok, err, ◌>>=◌, ◌>>◌, guard, traverse,
  type_error, argument_required,
}
use ryba.Text.{split, colon, lacks}
use ryba.Assoc.{Map, find, names, contents}
use ryba.Util.{flatten, unique, multimatch, OneOrMany, one, many}
use ryba.Config.{Config, Cluster, Service, Node, service_key}

unfoldable pub cluster : Config → String → Option Cluster
cluster config name = find name config.clusters

-- `cluster.services[service] || null`, or `null` with no cluster.
unfoldable pub service_in : Option Cluster → String → Option Service
service_in none service = none
service_in (some c) service = find service c.services

-- `service(cluster, service)`
unfoldable pub service : Config → String → String → Result (Option Service)
service config cluster_name service_name = do
  guard (not (cluster_name == "")) (argument_required "cluster")
  guard (not (service_name == "")) (argument_required "service")
  ok (service_in (cluster config cluster_name) service_name)

-- The two first parts of a text, a missing one being empty.
abbrev pub pair_of : List String → String × String
pair_of [] = ("", "")
pair_of (c ∷ []) = (c, "")
pair_of (c ∷ s ∷ more) = (c, s)

-- `service("cluster:service")`
unfoldable pub service_at : Config → String → Result (Option Service)
service_at config text =
    service config (pair_of (split colon text)).0 (pair_of (split colon text)).1

-- `this.service(dservice.id)`, for the identifier of an entry of `service.use`
unfoldable pub service_dep : Config → Option String → Result (Option Service)
service_dep config none = err type_error
service_dep config (some id) = service_at config id

unfoldable pub service_deps : Config → List (Option String) → Result (List (Option Service))
service_deps config ids = traverse (service_dep config) ids

unfoldable pub nodes : Config → List Node
nodes config = contents config.nodes

unfoldable pub node : Config → String → Option Node
node config name = find name config.nodes

abbrev or_else : String → String → String
or_else s default = if s == "" then default else s

-- `[cmatch, smatch] = match.split(':')`, the other way round if there is no colon.
unfoldable pub patterns : String → String × String
patterns match =
    let parts = pair_of (split colon match) in
    if lacks colon match
    then ("*", or_else parts.0 "**")
    else (or_else parts.0 "*", or_else parts.1 "**")

module _ (minimatch : String → String → Bool) where
  unfoldable pub cluster_names : Config → Option OneOrMany → List Value
  cluster_names config none = flatten (to_items (map str (names config.clusters))) []
  cluster_names config (some match) =
      flatten
        (to_items (
          map (λ name. array (map str (multimatch minimatch (one name) match)))
            (names config.clusters)))
        []

  -- The array of the names of one service.
  unfoldable pub service_name : String → Cluster → Service → Value
  service_name smatch c s =
      array (
        map str
          (map (λ name. service_key c.id name) (multimatch minimatch (one s.id) (one smatch))))

  -- The array that the callback of `service_names` returns for a cluster.
  unfoldable pub cluster_service_names : String → String → Cluster → Value
  cluster_service_names cmatch smatch c =
      if length (multimatch minimatch (one c.id) (one cmatch)) =ℕ 0
      then arr nil
      else array (map (service_name smatch c) (contents c.services))

  unfoldable pub service_names : Config → String → List Value
  service_names config match =
      flatten
        (to_items (
          map (cluster_service_names (patterns match).0 (patterns match).1)
            (contents config.clusters)))
        []

-- The texts of an array of texts.
abbrev pub texts : List Value → List String
texts [] = []
texts (str s ∷ vs) = s ∷ texts vs
texts (v ∷ vs) = texts vs

abbrev pub service_commands : Service → Value
service_commands s = array (map str (names s.commands))

abbrev pub cluster_commands : Cluster → Value
cluster_commands c = array (map service_commands (contents c.services))

unfoldable pub commands : Config → List String
commands config =
    unique (texts (flatten (to_items (map cluster_commands (contents config.clusters))) []))
