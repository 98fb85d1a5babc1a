-- ===== src/Tests/MdmStandardService.antt =====
-- The handlers of `internal/controller/mdm/standardservice/standardservice.go`, run.
use provider_dip.Base.{
  Text, true, Option, none, some, [], ◌∷◌, ◌≡◌, refl, codes, pos, text_Comparable,
}
use provider_dip.Go.{ok}
use provider_dip.Managed.{Managed, no_details}
use provider_dip.Apis.Mdm
use provider_dip.Apis.Object.{mdm_standard_service}
use provider_dip.Mdm.Remote
use provider_dip.Mdm.StandardService
use provider_dip.Mdm.Converge.StandardService.{Kept, AllSent, service_urls-AllSent}
use provider_dip.Controller.{RemoteApi, asserted, create_external, checked, dereference}
use provider_dip.Mdm.Runs.StandardService.{mdm_standard_service_Reconciled-Moves}
use provider_dip.Controller.{observe_external, observe_name, absent}
use provider_dip.Controller.Reconcile.{creates}
use provider_dip.Controller.Reconcile.Phases.{Phase, Moves, IsIn}
use provider_dip.Controller.Reconcile.Converge.{OnlyReads}
use provider_dip.Controller.Lifecycle.{StoresCreated, StoresUpdated}
use provider_dip.Apis.Object.{Object}
use provider_dip.Tests.Fake.{service-OnlyReads, service-StoresCreated}
use provider_dip.Tests.Fake
use provider_dip.Tests.Fake.{fresh, service-StoresUpdated}

abbrev fp : Mdm.StandardServiceParameters
fp = record {
  name = codes "name";
  description = some (codes "first");
  trusted = some true;
  tags = codes "tag" ∷ [];
  service_urls =
      record { url = codes "https://a"; sort_order = some (pos 1); authentication_method_id = none }
      ∷ record {
        url = codes "https://b";
        sort_order = none;
        authentication_method_id = some (codes "id");
      }
      ∷ [];
  organization_id = none;
}

abbrev cr : Text → Managed Mdm.StandardServiceParameters Mdm.StandardServiceObservation
cr external_name = record {
  external_name = external_name;
  namespace = codes "team";
  provider_config_ref = none;
  for_provider = fp;
  at_provider = record { id = none };
  ready = none;
}

abbrev make : Remote.StandardService → Remote.StandardService
make = λ body. record body { id = fresh }

abbrev change : Remote.StandardService → Remote.StandardService
change = λ body. body

abbrev remote :
    RemoteApi
      (Option Remote.StandardService)
      Remote.StandardService
      Remote.StandardService
      Remote.StandardService
remote = Fake.service (λ r. r.id) (λ r. r.id) make change

stores : StoresCreated remote (λ r. r.id) Kept
stores =
    service-StoresCreated (λ r. r.id) (λ r. r.id) make change Kept (λ body. refl)
      (λ body. (refl, refl))

keeps : StoresUpdated remote (λ r. r.id) Kept
keeps =
    service-StoresUpdated (λ r. r.id) (λ r. r.id) make change Kept (λ body. refl)
      (λ body. (refl, refl))

service_urls-AllSent_example :
    AllSent fp.service_urls (StandardService.new_service fp).service_urls
    × AllSent fp.service_urls (StandardService.updated_service fresh fp).service_urls
service_urls-AllSent_example = service_urls-AllSent fresh fp

abbrev begin : Object × Option Remote.StandardService
begin = (mdm_standard_service (cr []), none)

seen : (StandardService.observe remote begin).0 ≡ ok absent
unfolding StandardService.observe asserted observe_external observe_name
seen = refl

made : (StandardService.create remote (StandardService.observe remote begin).1).0 ≡ ok no_details
unfolding StandardService.observe observe_external observe_name StandardService.create asserted
    create_external checked dereference StandardService.new_service StandardService.append_urls
    StandardService.convert_url
made = refl

reads : OnlyReads remote
reads = service-OnlyReads (λ r. r.id) (λ r. r.id) make change

mdm_standard_service_Reconciled-Moves_example :
    (p : Phase) × (q : Phase) × IsIn (StandardService.external remote) begin p
    × IsIn
        (StandardService.external remote)
        (StandardService.create remote (StandardService.observe remote begin).1).1
        q
    × Moves p q 1
mdm_standard_service_Reconciled-Moves_example =
    mdm_standard_service_Reconciled-Moves remote begin _ stores keeps reads
      (creates no_details seen made refl)
