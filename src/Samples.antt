-- ===== src/Samples.antt =====
-- A configuration for the tests: on one node, a service and a client of it in one cluster.
use ryba.Base.{String, true, false, [], ◌∷◌, some}
use ryba.Js.{str, obj, end, undefined, func}
use ryba.Config.{Dep, NodeService, Node, Instance, Service, Cluster, Config}

abbrev pub on_server : Dep
on_server = record {
  module_name = some "hdfs/nn";
  service = some "nn";
  cluster = "vagrant";
  auto = false;
  required = true;
  local = true;
  single = false;
  disabled = some false;
}

abbrev pub registered : String → NodeService
registered sname = record {
  cluster = "vagrant";
  service = sname;
  module_name = some "hdfs/nn";
  options = undefined;
}

abbrev pub master : Node
master = record {
  id = "m1.ryba";
  fqdn = "m1.ryba";
  hostname = "m1";
  services = registered "nn" ∷ registered "dn" ∷ [];
  others = end;
}

abbrev pub on_master : String → Instance
on_master sname = record {
  id = "m1.ryba";
  cluster = "vagrant";
  service = sname;
  node = master;
  options = obj end;
}

abbrev pub server : Service
server = record {
  id = "nn";
  cluster = "vagrant";
  module_name = "hdfs/nn";
  deps = [];
  affinity = [];
  commands = ("start", func 1 ∷ []) ∷ ("check", str "hdfs/nn/check" ∷ []) ∷ [];
  nodes = [];
  options = obj end;
  instances = on_master "nn" ∷ [];
  configure = undefined;
  plugin = undefined;
}

abbrev pub client : Service
client = record {
  id = "dn";
  cluster = "vagrant";
  module_name = "hdfs/dn";
  deps = ("hdfs_nn", on_server) ∷ [];
  affinity = [];
  commands = ("start", func 2 ∷ []) ∷ [];
  nodes = [];
  options = obj end;
  instances = on_master "dn" ∷ [];
  configure = undefined;
  plugin = undefined;
}

abbrev pub vagrant : Cluster
vagrant = record { id = "vagrant"; services = ("nn", server) ∷ ("dn", client) ∷ [] }

abbrev pub config : Config
config = record {
  clusters = ("vagrant", vagrant) ∷ [];
  nodes = ("m1.ryba", master) ∷ [];
  graph = [];
}
