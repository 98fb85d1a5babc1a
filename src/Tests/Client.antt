-- ===== src/Tests/Client.antt =====
-- The handlers of `internal/controller/client/client.go`, run.
use provider_dip.Base.{
  Text, true, Option, none, some, [], ◌∷◌, ◌≡◌, refl, codes, inl, inr, pos, text_eq,
  text_Comparable, lookup, ◌↔◌,
}
use provider_dip.Go.{ok, foreign}
use provider_dip.Managed.{Managed, no_details}
use provider_dip.Kube.{KubeApi, NamespacedName, SecretKeySelector, SecretData}
use provider_dip.Apis.Iam.{ClientParameters, ClientObservation}
use provider_dip.Apis.Object.{Object, client}
use provider_dip.Iam.Remote
use provider_dip.Iam.Client
use provider_dip.Controller.Secrets.Read.{Names, DefaultsTo}
use provider_dip.Iam.Converge.Client.{get_password_ok_iff, Kept}
use provider_dip.Controller.{RemoteApi, asserted, create_external, checked, dereference}
use provider_dip.Controller.Lifecycle.{StoresCreated, StoresUpdated}
use provider_dip.Iam.Runs.Client.{client_Reconciled-Moves}
use provider_dip.Controller.{observe_external, observe_name, absent}
use provider_dip.Controller.Reconcile.{creates}
use provider_dip.Controller.Reconcile.Phases.{Phase, Moves, IsIn}
use provider_dip.Controller.Reconcile.Converge.{OnlyReads}
use provider_dip.Controller.Lifecycle.{StoresCreated, StoresUpdated}
use provider_dip.Apis.Object.{Object}
use provider_dip.Tests.Fake.{service-OnlyReads, service-StoresCreated}
use provider_dip.Tests.Fake
use provider_dip.Tests.Fake.{fresh, service-StoresCreated, service-StoresUpdated, service-Forgets}

abbrev fp : ClientParameters
fp = record {
  name = codes "alpha";
  type = codes "Confidential";
  client_id = codes "alpha-client";
  password_secret_ref = record { name = codes "creds"; namespace = []; key = [] };
  description = codes "first";
  application_id = none;
  global_reference_id = codes "ref";
  redirection_uris = some (codes "https://example.org" ∷ []);
  response_types = none;
  scopes = none;
  default_scopes = none;
  consent_implied = some true;
  access_token_lifetime = some (pos 1800);
  refresh_token_lifetime = none;
  id_token_lifetime = none;
}

abbrev pub cr : Text → Managed ClientParameters ClientObservation
cr external_name = record {
  external_name = external_name;
  namespace = codes "team";
  provider_config_ref = none;
  for_provider = fp;
  at_provider = record { id = none; client_id = none; disabled = none };
  ready = none;
}

abbrev make : Remote.ApplicationClient → Remote.ApplicationClient
make = λ body. record body { id = fresh }

abbrev change : Remote.ApplicationClient → Remote.ApplicationClient
change = λ body. body

abbrev remote :
    RemoteApi
      (Option Remote.ApplicationClient)
      Remote.ApplicationClient
      Remote.ApplicationClient
      Remote.ApplicationClient
remote = Fake.service (λ r. r.id) (λ r. r.id) make change

-- A cluster in which every secret holds a password.
abbrev cluster : KubeApi (Option Remote.ApplicationClient) Object
cluster = record {
  track = λ mg w. (none, w);
  get_provider_config = λ nn w. (inl (foreign []), w);
  get_secret = λ nn w. (inr ((codes "password", codes "s3cret") ∷ []), w);
  extract = λ source ref w. (inl (foreign []), w);
}

stores : StoresCreated remote (λ r. r.id) Kept
stores =
    service-StoresCreated (λ r. r.id) (λ r. r.id) make change Kept (λ body. refl)
      (λ body. (refl, refl))

keeps : StoresUpdated remote (λ r. r.id) Kept
keeps =
    service-StoresUpdated (λ r. r.id) (λ r. r.id) make change Kept (λ body. refl)
      (λ body. (refl, refl))

abbrev ref : SecretKeySelector
ref = fp.password_secret_ref

get_password_ok_iff_example :
    ((Client.get_password cluster (codes "team") remote ref none).0 ≡ ok (codes "s3cret")) ↔ (
      (nn : NamespacedName) × (key : Text) × (secret : SecretData) × Names ref (codes "team") nn
      × DefaultsTo ref.key (codes "password") key
      × ((cluster.get_secret nn none).0 ≡ inr secret)
      × (lookup key secret ≡ some (codes "s3cret")))
get_password_ok_iff_example =
    get_password_ok_iff cluster (codes "team") remote ref none (codes "s3cret")

abbrev begin : Object × Option Remote.ApplicationClient
begin = (client (cr []), none)

seen : (Client.observe cluster (codes "team") remote begin).0 ≡ ok absent
unfolding Client.observe asserted observe_external observe_name
seen = refl

made :
    (Client.create cluster
      (codes "team")
      remote
      (Client.observe cluster (codes "team") remote begin).1).0
    ≡ ok no_details
unfolding Client.observe observe_external observe_name Client.create asserted create_external
    checked dereference Client.client_request Client.get_password text_eq
made = refl

reads : OnlyReads remote
reads = service-OnlyReads (λ r. r.id) (λ r. r.id) make change

client_Reconciled-Moves_example :
    (p : Phase) × (q : Phase) × IsIn (Client.external cluster (codes "team") remote) begin p
    × IsIn
        (Client.external cluster (codes "team") remote)
        (Client.create cluster
          (codes "team")
          remote
          (Client.observe cluster (codes "team") remote begin).1).1
        q
    × Moves p q 1
client_Reconciled-Moves_example =
    client_Reconciled-Moves cluster (codes "team") remote begin _ stores keeps reads
      (creates no_details seen made refl)
