-- ===== src/Iam/Service.antt =====
-- `internal/controller/service/service.go`.
use provider_dip.Base.{
  Text, String, List, Bool, true, false, Option, none, some, [], ◌∷◌, given, differs, ◌!=◌,
}
use provider_dip.Base.{text_Comparable, int_Comparable, pos, codes, is_empty, if◌then◌else◌}
use provider_dip.Go.{M, pure, ◌>>=◌, ◌>>◌}
use provider_dip.Managed.{ExternalObservation, ExternalCreation}
use provider_dip.Apis.Iam.{ServiceParameters, ServiceObservation}
use provider_dip.Apis.Object.{Object}
use provider_dip.Apis.Kinds.{service_kind}
use provider_dip.Iam.Remote
use provider_dip.Controller.{RemoteApi, Observer, asserted, from_spec, from_named, observe_external}
use provider_dip.Controller.{create_external, update_external, delete_external, modify}
use provider_dip.Controller.Connect
use provider_dip.Controller.Session.{ExternalClient}
use provider_dip.Controller.Connect.{Environment}
use provider_dip.Dip.Client.{Client}

unfoldable pub is_up_to_date : ServiceParameters → Remote.Service → Bool
is_up_to_date fp service =
    if fp.name != service.name
    then false
    else if differs fp.description service.description
    then false
    else true

unfoldable pub record_status : Remote.Service → ServiceObservation → ServiceObservation
record_status service status = record status {
  id = some service.id;
  service_id = some service.service_id;
}

abbrev pub observer : Observer ServiceParameters ServiceObservation Remote.Service
observer = record {
  message = "cannot get service";
  record_status = record_status;
  is_up_to_date = is_up_to_date;
}

-- What `Create` and `Update` send. `if fp.Scopes != nil { service.Scopes = fp.Scopes }`, on a field
-- that is nil, is a copy.
unfoldable pub new_service : ServiceParameters → Remote.Service
new_service fp = record {
  id = [];
  name = fp.name;
  description = given fp.description [];
  application_id = given fp.application_id [];
  scopes = fp.scopes;
  default_scopes = fp.default_scopes;
  access_token_lifetime = given fp.access_token_lifetime (pos 0);
  service_id = [];
  private_key = [];
  organization_id = [];
  expires_on = [];
}

unfoldable pub updated_service : Text → ServiceParameters → Remote.Service
updated_service external_name fp = record {
  id = external_name;
  name = fp.name;
  description = given fp.description [];
  application_id = given fp.application_id [];
  scopes = fp.scopes;
  default_scopes = fp.default_scopes;
  access_token_lifetime = given fp.access_token_lifetime (pos 0);
  service_id = [];
  private_key = [];
  organization_id = [];
  expires_on = [];
}

abbrev pub service_by_id : Text → Remote.Service
service_by_id external_name = record {
  id = external_name;
  name = [];
  description = [];
  application_id = [];
  scopes = none;
  default_scopes = none;
  access_token_lifetime = pos 0;
  service_id = [];
  private_key = [];
  organization_id = [];
  expires_on = [];
}

-- `if v != "" { m[k] = v }`, on a map without the key.
abbrev pub entry_unless_empty : String → Text → List (Text × Text) → List (Text × Text)
entry_unless_empty k v m = if is_empty v then m else (codes k, v) ∷ m

-- `connectionDetails`; the order of the entries is not that of a Go map, which has none.
unfoldable pub connection_details : Remote.Service → List (Text × Text)
connection_details s = entry_unless_empty "expiresOn" s.expires_on (
    entry_unless_empty "organizationId" s.organization_id
      (entry_unless_empty "privateKey" s.private_key ((codes "serviceId", s.service_id) ∷ [])))

-- `if v != "" { status.X = &v }`.
abbrev some_unless_empty : Text → Option Text → Option Text
some_unless_empty v old = if is_empty v then old else some v

unfoldable pub record_created : Remote.Service → ServiceObservation → ServiceObservation
record_created created status = record status {
  id = some created.id;
  service_id = some created.service_id;
  organization_id = some_unless_empty created.organization_id status.organization_id;
  expires_on = some_unless_empty created.expires_on status.expires_on;
}

module _ {W : Type 0} (api : RemoteApi W Remote.Service Remote.Service Remote.Service) where
  unfoldable pub observe : M (Object × W) ExternalObservation
  unfolding is_up_to_date record_status
  observe = asserted service_kind (observe_external observer api.get)

  unfoldable pub create : M (Object × W) ExternalCreation
  unfolding new_service record_created connection_details
  create = asserted service_kind (do
    created ← create_external (from_spec new_service) api.create "cannot create service" (λ r. r.id)
    modify (λ cr. record cr { at_provider = record_created created cr.at_provider })
    pure (record { connection_details = connection_details created }))

  unfoldable pub update : M (Object × W) (Unit {0})
  unfolding updated_service
  update =
      asserted service_kind
        (update_external (from_named updated_service) api.update "cannot update service")

  unfoldable pub delete : M (Object × W) (Unit {0})
  delete = asserted service_kind (delete_external service_by_id api.delete "cannot delete service")

  -- `external`, whose calls are these.
  abbrev pub external : ExternalClient W
  external = record { observe = observe; create = create; update = update; delete = delete }

unfoldable pub connect :
    {W Iam Mdm Provisioning : Type 0}
    → Environment W Iam Mdm Provisioning
    → M (Object × W) (Client Iam Mdm Provisioning)
unfolding Connect.connect
connect env = Connect.connect service_kind env
