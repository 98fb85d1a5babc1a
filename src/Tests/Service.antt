-- ===== src/Tests/Service.antt =====
-- The handlers of `internal/controller/service/service.go`, run.
use provider_dip.Base.{
  lookup, ◌≢◌, text_Comparable, Text, Option, none, some, [], ◌∷◌, ◌≡◌, ◌↔◌, refl, codes,
}
use provider_dip.Go.{ok}
use provider_dip.Managed.{Managed, ExternalCreation}
use provider_dip.Apis.Iam.{ServiceParameters, ServiceObservation}
use provider_dip.Apis.Object.{service}
use provider_dip.Iam.Remote
use provider_dip.Iam.Service
use provider_dip.Iam.Converge.Service.{Kept, connection_details-lookup}
use provider_dip.Controller.{RemoteApi, asserted, create_external, checked, dereference}
use provider_dip.Controller.Lifecycle.{StoresCreated, StoresUpdated}
use provider_dip.Iam.Runs.Service.{service_Reconciled-Moves}
use provider_dip.Controller.{observe_external, observe_name, absent}
use provider_dip.Controller.Reconcile.{creates}
use provider_dip.Controller.Reconcile.Phases.{Phase, Moves, IsIn}
use provider_dip.Controller.Reconcile.Converge.{OnlyReads}
use provider_dip.Controller.Lifecycle.{StoresCreated, StoresUpdated}
use provider_dip.Apis.Object.{Object}
use provider_dip.Tests.Fake.{service-OnlyReads, service-StoresCreated}
use provider_dip.Tests.Fake
use provider_dip.Tests.Fake.{fresh, service-StoresCreated, service-StoresUpdated, service-Forgets}

abbrev fp : ServiceParameters
fp = record {
  name = codes "alpha";
  description = some (codes "first");
  application_id = none;
  private_key_secret_ref = none;
  scopes = none;
  default_scopes = none;
  access_token_lifetime = none;
  refresh_token_lifetime = none;
  token_endpoint_auth_method = none;
}

abbrev pub cr : Text → Managed ServiceParameters ServiceObservation
cr external_name = record {
  external_name = external_name;
  namespace = codes "team";
  provider_config_ref = none;
  for_provider = fp;
  at_provider = record { id = none; service_id = none; organization_id = none; expires_on = none };
  ready = none;
}

abbrev make : Remote.Service → Remote.Service
make = λ body. record body { id = fresh; service_id = codes "svc"; private_key = codes "key" }

abbrev change : Remote.Service → Remote.Service
change = λ body. body

abbrev pub remote : RemoteApi (Option Remote.Service) Remote.Service Remote.Service Remote.Service
remote = Fake.service (λ r. r.id) (λ r. r.id) make change

pub stores : StoresCreated remote (λ r. r.id) Kept
stores =
    service-StoresCreated (λ r. r.id) (λ r. r.id) make change Kept (λ body. refl)
      (λ body. (refl, refl))

abbrev details : ExternalCreation
details = record {
  connection_details = (codes "privateKey", codes "key") ∷ (codes "serviceId", codes "svc") ∷ [];
}

keeps : StoresUpdated remote (λ r. r.id) Kept
keeps =
    service-StoresUpdated (λ r. r.id) (λ r. r.id) make change Kept (λ body. refl)
      (λ body. (refl, refl))

abbrev identity : Remote.Service
identity = make (Service.new_service fp)

connection_details-lookup_example :
    (lookup (codes "serviceId") (Service.connection_details identity) ≡ some (codes "svc"))
    × ((key : Text)
        → (lookup (codes "privateKey") (Service.connection_details identity) ≡ some key)
          ↔ ((codes "key" ≡ key) × (key ≢ [])))
connection_details-lookup_example = connection_details-lookup identity

abbrev pub begin : Object × Option Remote.Service
begin = (service (cr []), none)

seen : (Service.observe remote begin).0 ≡ ok absent
unfolding Service.observe asserted observe_external observe_name
seen = refl

made : (Service.create remote (Service.observe remote begin).1).0 ≡ ok details
unfolding Service.observe observe_external observe_name Service.create asserted create_external
    checked dereference Service.new_service Service.connection_details Service.record_created
made = refl

reads : OnlyReads remote
reads = service-OnlyReads (λ r. r.id) (λ r. r.id) make change

service_Reconciled-Moves_example :
    (p : Phase) × (q : Phase) × IsIn (Service.external remote) begin p
    × IsIn (Service.external remote) (Service.create remote (Service.observe remote begin).1).1 q
    × Moves p q 1
service_Reconciled-Moves_example =
    service_Reconciled-Moves remote begin _ stores keeps reads (creates details seen made refl)
