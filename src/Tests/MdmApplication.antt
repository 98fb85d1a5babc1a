-- ===== src/Tests/MdmApplication.antt =====
-- The handlers of `internal/controller/mdm/application/application.go`, run.
use provider_dip.Base.{Text, true, Option, none, some, ◌≡◌, refl, codes}
use provider_dip.Go.{ok}
use provider_dip.Managed.{Managed}
use provider_dip.Util.{is_valid_uuid, uuid_regex, is_hex}
use provider_dip.Regex.{matches_full}
use provider_dip.Apis.Mdm
use provider_dip.Apis.Object.{mdm_application}
use provider_dip.Mdm.Remote
use provider_dip.Mdm.Application
use provider_dip.Mdm.Converge.Application.{Kept, mdm_application_delete-observe}
use provider_dip.Controller.{RemoteApi, asserted, update_external, checked}
use provider_dip.Controller.Lifecycle.{StoresUpdated}
use provider_dip.Tests.Fake
use provider_dip.Tests.Fake.{fresh, service-StoresCreated, service-StoresUpdated, service-Forgets}

abbrev fp : Mdm.ApplicationParameters
fp = record {
  name = codes "name";
  description = some (codes "first");
  proposition_id = none;
  global_reference_id = codes "global_reference_id";
  application_guid = none;
  default_group_guid = none;
}

abbrev pub cr : Text → Managed Mdm.ApplicationParameters Mdm.ApplicationObservation
cr external_name = record {
  external_name = external_name;
  namespace = codes "team";
  provider_config_ref = none;
  for_provider = fp;
  at_provider = record { id = none };
  ready = none;
}

abbrev make : Remote.Application → Remote.Application
make = λ body. record body { id = fresh }

abbrev change : Remote.Application → Remote.Application
change = λ body. body

abbrev remote :
    RemoteApi (Option Remote.Application) Remote.Application Remote.Application Remote.Application
remote = Fake.service (λ r. r.id) (λ r. r.id) make change

fresh_named : is_valid_uuid fresh ≡ true
unfolding is_valid_uuid matches_full uuid_regex is_hex
fresh_named = refl

keeps : StoresUpdated remote (λ r. r.id) Kept
keeps =
    service-StoresUpdated (λ r. r.id) (λ r. r.id) make change Kept (λ body. refl)
      (λ body. (refl, refl))

updated : (Application.update remote (mdm_application (cr fresh), none)).0 ≡ ok tt
unfolding Application.update asserted update_external checked Application.updated_app
updated = refl

abbrev stored : Option Remote.Application
stored = some (make (Application.new_app fp))

mdm_application_delete-observe_example :
    (Application.observe remote
      (Application.delete remote (mdm_application (cr fresh), stored)).1).0
    ≡ (Application.observe remote (mdm_application (cr fresh), stored)).0
mdm_application_delete-observe_example =
    mdm_application_delete-observe remote (mdm_application (cr fresh)) stored
