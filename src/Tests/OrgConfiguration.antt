-- ===== src/Tests/OrgConfiguration.antt =====
-- The handlers of `internal/controller/provisioning/orgconfiguration/orgconfiguration.go`, run.
use provider_dip.Base.{
  Text, Option, none, some, [], ◌∷◌, ◌≡◌, refl, codes, inl, inr, text_eq, text_Comparable,
}
use provider_dip.Go.{ok, foreign}
use provider_dip.Managed.{Managed, no_details}
use provider_dip.Kube.{KubeApi}
use provider_dip.Apis.Provisioning
use provider_dip.Apis.Object.{org_configuration}
use provider_dip.Provisioning.Remote
use provider_dip.Provisioning.OrgConfiguration
use provider_dip.Provisioning.Converge.OrgConfiguration.{Kept}
use provider_dip.Controller.{RemoteApi, asserted, create_external, checked, dereference}
use provider_dip.Controller.Secrets.{get_secret_value, two_secrets_request, read_required_key}
use provider_dip.Provisioning.Runs.OrgConfiguration.{org_configuration_Reconciled-Moves}
use provider_dip.Controller.{observe_external, observe_name, absent}
use provider_dip.Controller.Reconcile.{creates}
use provider_dip.Controller.Reconcile.Phases.{Phase, Moves, IsIn}
use provider_dip.Controller.Reconcile.Converge.{OnlyReads}
use provider_dip.Controller.Lifecycle.{StoresCreated, StoresUpdated}
use provider_dip.Apis.Object.{Object}
use provider_dip.Tests.Fake.{service-OnlyReads, service-StoresCreated}
use provider_dip.Tests.Fake
use provider_dip.Tests.Fake.{fresh, service-StoresUpdated}

abbrev fp : Provisioning.OrgConfigurationParameters
fp = record {
  organization_id = codes "org";
  service_account = record {
    service_account_id = codes "account";
    service_account_key_secret_ref = record {
      name = codes "creds";
      namespace = [];
      key = codes "one";
    };
  };
  bootstrap_signature = record {
    public_key_secret_ref = record { name = codes "creds"; namespace = []; key = codes "two" };
    algorithm = codes "SHA256";
    config = some (record { type = some (codes "RSA"); padding = none; salt_length = none });
  };
}

abbrev pub cr :
    Text → Managed Provisioning.OrgConfigurationParameters Provisioning.OrgConfigurationObservation
cr external_name = record {
  external_name = external_name;
  namespace = codes "team";
  provider_config_ref = none;
  for_provider = fp;
  at_provider = record { id = none; version_id = none };
  ready = none;
}

abbrev make : Remote.OrgConfiguration → Remote.OrgConfiguration
make = λ body. record body { id = fresh }

abbrev change : Remote.OrgConfiguration → Remote.OrgConfiguration
change = λ body. body

abbrev remote :
    RemoteApi
      (Option Remote.OrgConfiguration)
      Remote.OrgConfiguration
      Remote.OrgConfiguration
      Remote.OrgConfiguration
remote = Fake.service (λ r. r.id) (λ r. r.id) make change

stores : StoresCreated remote (λ r. r.id) Kept
stores =
    service-StoresCreated (λ r. r.id) (λ r. r.id) make change Kept (λ body. refl)
      (λ body. (refl, refl, refl))

keeps : StoresUpdated remote (λ r. r.id) Kept
keeps =
    service-StoresUpdated (λ r. r.id) (λ r. r.id) make change Kept (λ body. refl)
      (λ body. (refl, refl, refl))

-- A cluster in which every secret holds two values.
abbrev cluster : KubeApi (Option Remote.OrgConfiguration) Object
cluster = record {
  track = λ mg w. (none, w);
  get_provider_config = λ nn w. (inl (foreign []), w);
  get_secret = λ nn w. (inr ((codes "one", codes "1") ∷ (codes "two", codes "2") ∷ []), w);
  extract = λ source ref w. (inl (foreign []), w);
}

abbrev begin : Object × Option Remote.OrgConfiguration
begin = (org_configuration (cr []), none)

seen : (OrgConfiguration.observe cluster (codes "team") remote begin).0 ≡ ok absent
unfolding OrgConfiguration.observe asserted observe_external observe_name
seen = refl

made :
    (OrgConfiguration.create cluster
      (codes "team")
      remote
      (OrgConfiguration.observe cluster (codes "team") remote begin).1).0
    ≡ ok no_details
unfolding OrgConfiguration.observe observe_external observe_name OrgConfiguration.create asserted
    create_external checked dereference OrgConfiguration.new_request OrgConfiguration.new_config
    two_secrets_request get_secret_value read_required_key text_eq
made = refl

reads : OnlyReads remote
reads = service-OnlyReads (λ r. r.id) (λ r. r.id) make change

org_configuration_Reconciled-Moves_example :
    (p : Phase) × (q : Phase) × IsIn
      (OrgConfiguration.external cluster (codes "team") remote)
      begin
      p
    × IsIn
        (OrgConfiguration.external cluster (codes "team") remote)
        (OrgConfiguration.create cluster
          (codes "team")
          remote
          (OrgConfiguration.observe cluster (codes "team") remote begin).1).1
        q
    × Moves p q 1
org_configuration_Reconciled-Moves_example =
    org_configuration_Reconciled-Moves cluster (codes "team") remote begin _ stores keeps reads
      (creates no_details seen made refl)
