-- ===== src/Tests/MdmAuthenticationMethod.antt =====
-- The handlers of `internal/controller/mdm/authenticationmethod/authenticationmethod.go`, run.
use provider_dip.Base.{
  Text, Option, none, some, [], ◌∷◌, ◌≡◌, ◌≢◌, ◌↔◌, refl, codes, inl, inr, lookup, text_eq,
  text_Comparable,
}
use provider_dip.Go.{ok, foreign}
use provider_dip.Managed.{Managed, no_details}
use provider_dip.Kube.{KubeApi, NamespacedName, SecretData}
use provider_dip.Apis.Mdm
use provider_dip.Apis.Object.{mdm_authentication_method}
use provider_dip.Mdm.Remote
use provider_dip.Mdm.AuthenticationMethod
use provider_dip.Mdm.Converge.AuthenticationMethod.{Kept}
use provider_dip.Controller.{RemoteApi, asserted, create_external, checked, dereference}
use provider_dip.Controller.Secrets.{get_secret_value, two_secrets_request, read_required_key}
use provider_dip.Controller.Secrets.Read.{Names, get_secret_value_ok_iff}
use provider_dip.Mdm.Runs.AuthenticationMethod.{mdm_authentication_method_Reconciled-Moves}
use provider_dip.Controller.{observe_external, observe_name, absent}
use provider_dip.Controller.Reconcile.{creates}
use provider_dip.Controller.Reconcile.Phases.{Phase, Moves, IsIn}
use provider_dip.Controller.Reconcile.Converge.{OnlyReads}
use provider_dip.Controller.Lifecycle.{StoresCreated, StoresUpdated}
use provider_dip.Apis.Object.{Object}
use provider_dip.Tests.Fake.{service-OnlyReads, service-StoresCreated}
use provider_dip.Go.{Error, fail, wrap}
use provider_dip.Managed.{creating}
use provider_dip.Controller.Secrets.Errors.{Unreadable}
use provider_dip.Mdm.Converge.AuthenticationMethod.{mdm_authentication_method_create_fails}
use provider_dip.Tests.Fake
use provider_dip.Tests.Fake.{fresh, service-StoresUpdated}

abbrev fp : Mdm.AuthenticationMethodParameters
fp = record {
  name = codes "name";
  description = some (codes "first");
  login_name = codes "login";
  password_secret_ref = record { name = codes "creds"; namespace = []; key = codes "one" };
  client_id = codes "client";
  client_secret_ref = record { name = codes "creds"; namespace = []; key = codes "two" };
  auth_url = none;
  auth_method = some (codes "basic");
  api_version = none;
  organization_id = none;
}

abbrev cr : Text → Managed Mdm.AuthenticationMethodParameters Mdm.AuthenticationMethodObservation
cr external_name = record {
  external_name = external_name;
  namespace = codes "team";
  provider_config_ref = none;
  for_provider = fp;
  at_provider = record { id = none };
  ready = none;
}

abbrev make : Remote.AuthenticationMethod → Remote.AuthenticationMethod
make = λ body. record body { id = fresh }

abbrev change : Remote.AuthenticationMethod → Remote.AuthenticationMethod
change = λ body. body

abbrev remote :
    RemoteApi
      (Option Remote.AuthenticationMethod)
      Remote.AuthenticationMethod
      Remote.AuthenticationMethod
      Remote.AuthenticationMethod
remote = Fake.service (λ r. r.id) (λ r. r.id) make change

stores : StoresCreated remote (λ r. r.id) Kept
stores =
    service-StoresCreated (λ r. r.id) (λ r. r.id) make change Kept (λ body. refl)
      (λ body. (refl, refl, refl, refl))

keeps : StoresUpdated remote (λ r. r.id) Kept
keeps =
    service-StoresUpdated (λ r. r.id) (λ r. r.id) make change Kept (λ body. refl)
      (λ body. (refl, refl, refl, refl))

-- A cluster in which every secret holds two values.
abbrev cluster : KubeApi (Option Remote.AuthenticationMethod) Object
cluster = record {
  track = λ mg w. (none, w);
  get_provider_config = λ nn w. (inl (foreign []), w);
  get_secret = λ nn w. (inr ((codes "one", codes "1") ∷ (codes "two", codes "2") ∷ []), w);
  extract = λ source ref w. (inl (foreign []), w);
}

get_secret_value_ok_iff_example :
    ((get_secret_value cluster (codes "team") fp.client_secret_ref none).0 ≡ ok (codes "2")) ↔ (
      (nn : NamespacedName) × (secret : SecretData) × Names fp.client_secret_ref (codes "team") nn
      × ((cluster.get_secret nn none).0 ≡ inr secret)
      × (fp.client_secret_ref.key ≢ [])
      × (lookup fp.client_secret_ref.key secret ≡ some (codes "2")))
get_secret_value_ok_iff_example =
    get_secret_value_ok_iff cluster (codes "team") fp.client_secret_ref none (codes "2")

abbrev begin : Object × Option Remote.AuthenticationMethod
begin = (mdm_authentication_method (cr []), none)

seen : (AuthenticationMethod.observe cluster (codes "team") remote begin).0 ≡ ok absent
unfolding AuthenticationMethod.observe asserted observe_external observe_name
seen = refl

made :
    (AuthenticationMethod.create cluster
      (codes "team")
      remote
      (AuthenticationMethod.observe cluster (codes "team") remote begin).1).0
    ≡ ok no_details
unfolding AuthenticationMethod.observe observe_external observe_name AuthenticationMethod.create
    asserted create_external checked dereference AuthenticationMethod.new_request
    AuthenticationMethod.new_method two_secrets_request get_secret_value read_required_key text_eq
made = refl

reads : OnlyReads remote
reads = service-OnlyReads (λ r. r.id) (λ r. r.id) make change

mdm_authentication_method_Reconciled-Moves_example :
    (p : Phase) × (q : Phase) × IsIn
      (AuthenticationMethod.external cluster (codes "team") remote)
      begin
      p
    × IsIn
        (AuthenticationMethod.external cluster (codes "team") remote)
        (AuthenticationMethod.create cluster
          (codes "team")
          remote
          (AuthenticationMethod.observe cluster (codes "team") remote begin).1).1
        q
    × Moves p q 1
mdm_authentication_method_Reconciled-Moves_example =
    mdm_authentication_method_Reconciled-Moves cluster (codes "team") remote begin _ stores keeps
      reads (creates no_details seen made refl)

-- A cluster without the secret.
abbrev empty_cluster : KubeApi (Option Remote.AuthenticationMethod) Object
empty_cluster = record cluster { get_secret = λ nn w. (inl (foreign (codes "404")), w) }

abbrev refusal : Error
refusal = wrap (wrap (foreign (codes "404")) "cannot get secret") "cannot get password from secret"

unreadable :
    Unreadable empty_cluster
      (codes "team")
      fp.password_secret_ref
      "cannot get password from secret"
      fp.client_secret_ref
      "cannot get client secret from secret"
      none
      refusal
      none
unfolding get_secret_value
unreadable = inl (_, refl, refl, refl)

mdm_authentication_method_create_fails_example :
    AuthenticationMethod.create empty_cluster (codes "team") remote begin
    ≡ (fail refusal, (mdm_authentication_method (record (cr []) { ready = some creating }), none))
mdm_authentication_method_create_fails_example =
    mdm_authentication_method_create_fails empty_cluster (codes "team") remote (cr []) none refusal
      none unreadable
