-- ===== src/Store/Tests.antt =====
-- The theorems on the store at a concrete configuration.
use ryba.Base.{String, ◌==◌, ◌≡◌, refl, Bool, true, contains, ◌||◌}
use ryba.Text.{split}
use ryba.Assoc.{find}
use ryba.Util.{flatten, flatten_value, multimatch}
use ryba.Store.{
  cluster, service_in, service, service_at, patterns, cluster_service_names, service_name,
  service_names, texts,
}
use ryba.Store.Laws.{IsKeyed, IsFound, service_at-service_names}
use ryba.Samples.{config}

program : Unit {0}
unfolding flatten flatten_value multimatch find split cluster service_in service service_at patterns
    cluster_service_names service_name service_names
program = tt

-- A pattern matches itself, and a pattern with a star matches all.
abbrev matches : String → String → Bool
matches el pattern = el == pattern || pattern == "*" || pattern == "**"

config-IsKeyed : IsKeyed config
unfolding program
config-IsKeyed = (
  (refl, tt),
  (
    (
      (refl, refl),
      refl,
      (refl, (refl, tt)),
      (((refl, refl), refl, refl), (((refl, refl), refl, refl), tt)),
    ),
    tt,
  ),
)

listed : contains (texts (service_names matches config "vagrant:*")) "vagrant:dn" ≡ true
unfolding program
listed = refl

service_at-service_names_example : IsFound config "vagrant:dn"
service_at-service_names_example =
    service_at-service_names matches config "vagrant:*" "vagrant:dn" config-IsKeyed listed
