-- ===== src/Normalize/Discover/Modules/Tests.antt =====
-- Two modules that depend on each other, of which the configuration has one.
use ryba.Base.{Option, none, String, ◌≡◌, ◌≢◌, refl, true, List, [], ◌∷◌, some, arith}
use ryba.Js.{Value, obj, end, Fields, Result, ok, err, out_of_fuel}
use ryba.Assoc.{Map, find, insert, names}
use ryba.Text.{split}
use ryba.Normalize.Discover.{
  DepEntry, GivenDep, identified, given_dep, by_module, dep_object, next_last, cluster_of,
  services_of_module, the_service, search_module, identify_dep,
}
use ryba.Normalize.Discover.Drafts.{
  Draft, default_service, draft, cluster_with, Clusters, candidates, started, empty_draft,
  candidate_of, definition_of, service_entry, put_entry, read_services, put_dep,
}
use ryba.Normalize.Discover.Modules.{
  add_service, add_missing, add_auto, visit_deps, loaded_draft, discover_service, discover_services,
  cluster_services, discover_clusters, discover_all,
}
use ryba.Normalize.Discover.Modules.Carried.{visit_deps-carries}
use ryba.Normalize.Discover.Modules.Lookup.{is_supplied}
use ryba.Normalize.Discover.Modules.Complete.{discover_all-IsSupplied}
use ryba.Normalize.Discover.Modules.Termination.{AreClosed, discover_all-ne-out_of_fuel}

abbrev modules : List String
modules = "hdfs" ∷ "zookeeper" ∷ []

abbrev auto : String → DepEntry
auto m = given_dep (record (dep_object (by_module m)) { auto = true })

abbrev both : Map DepEntry
both = ("hdfs", auto "hdfs") ∷ ("zookeeper", auto "zookeeper") ∷ []

abbrev load : String → Result Value
load m = ok (obj end)

abbrev mutate : Draft → Fields → Draft
mutate d definition = record d { deps = some both }

load-AreClosed : AreClosed load mutate modules
load-AreClosed = record {
  loads = λ m e. cc;
  keeps_module = λ m definition d e. refl;
  keeps_deps = λ m definition d e h. (refl, (refl, tt));
}

abbrev given : Clusters
given = ("vagrant", cluster_with (some (("hdfs", default_service) ∷ []))) ∷ []

abbrev service_names : Result Clusters → List String
service_names (ok ((c, cluster_with (some services)) ∷ clusters)) = names services
service_names _ = []

modules_calls : Unit {0}
unfolding discover_all discover_clusters cluster_services discover_services discover_service
    service_entry find loaded_draft definition_of started visit_deps identify_dep candidates
    next_last cluster_of search_module services_of_module the_service add_auto put_dep put_entry
    insert read_services add_missing add_service split
modules_calls = tt

added : service_names (discover_all load mutate 3 given) ≡ "hdfs" ∷ "zookeeper" ∷ []
unfolding modules_calls
added = refl

discover_all-ne-out_of_fuel_example : discover_all load mutate 3 given ≢ err out_of_fuel
discover_all-ne-out_of_fuel_example =
    discover_all-ne-out_of_fuel load mutate modules load-AreClosed 3 given ((tt, tt), tt)
      (omega arith)

abbrev or_none : Result Clusters → Clusters
or_none (ok clusters) = clusters
or_none (Result.err e) = []

abbrev discovered : Clusters
discovered = or_none (discover_all load mutate 3 given)

abbrev zookeeper : DepEntry
zookeeper = given_dep (record (dep_object (auto "zookeeper")) {
  service = some "zookeeper";
  cluster = some "vagrant";
})

discover_all-IsSupplied_example : is_supplied discovered zookeeper ≡ true
unfolding modules_calls
discover_all-IsSupplied_example =
    discover_all-IsSupplied load mutate 3 given discovered "vagrant" "hdfs" "zookeeper" zookeeper
      refl refl refl

abbrev on_namenode : GivenDep
on_namenode = record (dep_object (by_module "hdfs/nn")) { service = some "vagrant:nn" }

visit_deps-carries_example :
    visit_deps
      (discover_service load mutate 3 "vagrant")
      0
      "vagrant"
      "vagrant"
      "hdfs"
      (none, none)
      (("nn", given_dep on_namenode) ∷ ("zk", by_module "zookeeper") ∷ [])
      given
    ≡ ok (
        put_dep 0 "vagrant" "hdfs" "zk"
          (identified (dep_object (by_module "zookeeper")) "vagrant" (some "nn"))
          (put_dep 0 "vagrant" "hdfs" "nn" (identified on_namenode "vagrant" (some "nn")) given))
unfolding cluster_of
visit_deps-carries_example =
    visit_deps-carries (discover_service load mutate 3 "vagrant") 0 "vagrant" "vagrant" "hdfs" "nn"
      "zk" "vagrant" "nn" "zookeeper" (none, none) on_namenode given refl refl refl refl refl refl

-- A service is replaced if it has the name of a module that another one wants, but is of another module.
abbrev custom : Clusters
custom =
    (
      "vagrant",
      cluster_with (
          some (
            ("hdfs", default_service)
            ∷ ("zookeeper", draft (record empty_draft { module_name = some "custom" }))
            ∷ [])),
    )
    ∷ []

abbrev module_at : Result Clusters → String → String → Option String
module_at (ok clusters) c s = elim (service_entry clusters c s) [
  | none ↦ none
  | some e ↦ (candidate_of e).module_name
]
module_at (Result.err e) c s = none

replaced : module_at (discover_all load mutate 3 custom) "vagrant" "zookeeper" ≡ some "zookeeper"
unfolding modules_calls
replaced = refl
