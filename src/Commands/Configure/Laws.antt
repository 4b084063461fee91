-- ===== src/Commands/Configure/Laws.antt =====
-- Printing a service, by its cluster and its name.
use ryba.Base.{String, ◌==◌, ◌≡◌, refl, Bool, true, false}
use ryba.Js.{ok, ◌>>=◌}
use ryba.Text.{lacks, colon}
use ryba.Config.{Config, service_key}
use ryba.Store.{service_at}
use ryba.Store.Laws.{service_at-key}
use ryba.Commands.Configure.{configure, of_service}

-- With a service and a cluster whose names hold no colon, where no nodes are asked for, `configure` prints what the store
-- has under the key `cluster:service`.
pub configure-service_at :
    (minimatch : String → String → Bool) (config : Config) (c s : String)
    (cluster_names service_names : Bool)
    → (c == "") ≡ false
    → (s == "") ≡ false
    → lacks colon c ≡ true
    → lacks colon s ≡ true
    → configure minimatch config (record {
      nodes = false;
      node = "";
      service = s;
      cluster = c;
      cluster_names = cluster_names;
      service_names = service_names;
    })
      ≡ (service_at config (service_key c s) >>= λ found. ok (of_service found))
unfolding configure
configure-service_at minimatch config c s cluster_names service_names named_c named_s plain_c
      plain_s =
    rw (named_c, named_s, service_at-key config c s plain_c plain_s) refl
