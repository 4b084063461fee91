-- ===== src/Normalize/Discover/Tests.antt =====
-- A dependency that is found by its module.
use ryba.Base.{◌≡◌, refl, [], ◌∷◌, none, some}
use ryba.Js.{ok}
use ryba.Assoc.{Map, find}
use ryba.Normalize.Discover.{
  by_module, dep_object, Candidate, identified, next_last, cluster_of, search_module,
  services_of_module, the_service, identify_dep,
}

abbrev clusters : Map (Map Candidate)
clusters = ("vagrant", ("zk", record { id = none; module_name = some "zookeeper" }) ∷ []) ∷ []

identify_zookeeper :
    identify_dep clusters "vagrant" (none, none) (by_module "zookeeper")
    ≡ ok (identified (dep_object (by_module "zookeeper")) "vagrant" (some "zk"), (none, none))
unfolding identify_dep next_last cluster_of search_module services_of_module the_service find
identify_zookeeper = refl
