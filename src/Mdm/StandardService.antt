-- ===== src/Mdm/StandardService.antt =====
-- `internal/controller/mdm/standardservice/standardservice.go`.
use provider_dip.Base.{
  Text, List, Bool, true, false, none, some, [], ◌∷◌, ◌++◌, given, differs, ◌!=◌, text_Comparable,
  codes, if◌then◌else◌, pos,
}
use provider_dip.Go.{M, pure, ◌>>=◌}
use provider_dip.Managed.{ExternalObservation, ExternalCreation, no_details}
use provider_dip.Apis.Mdm
use provider_dip.Apis.Object.{Object}
use provider_dip.Apis.MdmKinds.{mdm_standard_service_kind}
use provider_dip.Mdm.Remote
use provider_dip.Controller.{RemoteApi, Observer, asserted, from_spec, from_named, observe_external}
use provider_dip.Controller.{create_external, update_external, delete_external}
use provider_dip.Controller.Session.{ExternalClient}
use provider_dip.Controller.Connect.{Environment, connect_mdm}
use provider_dip.Dip.Client.{Client}

unfoldable pub is_up_to_date : Mdm.StandardServiceParameters → Remote.StandardService → Bool
is_up_to_date fp svc =
    if fp.name != svc.name
    then false
    else if differs fp.description svc.description
    then false
    else true

unfoldable pub record_status :
    Remote.StandardService → Mdm.StandardServiceObservation → Mdm.StandardServiceObservation
record_status svc status = record status { id = some svc.id }

abbrev pub observer :
    Observer Mdm.StandardServiceParameters Mdm.StandardServiceObservation Remote.StandardService
observer = record {
  message = "cannot get MDM standard service";
  record_status = record_status;
  is_up_to_date = is_up_to_date;
}

-- The body of the loop over the service URLs.
unfoldable pub convert_url : Mdm.ServiceUrl → Remote.ServiceUrl
convert_url u = record {
  url = u.url;
  sort_order = given u.sort_order (pos 0);
  authentication_method_id = u.authentication_method_id;
}

-- The loop, from what `svc.ServiceUrls` holds before: each round appends one.
unfoldable pub append_urls : List Mdm.ServiceUrl → List Remote.ServiceUrl → List Remote.ServiceUrl
unfolding convert_url
append_urls [] service_urls = service_urls
append_urls (u ∷ us) service_urls = append_urls us (service_urls ++ convert_url u ∷ [])

-- What `Create` and `Update` send.
unfoldable pub new_service : Mdm.StandardServiceParameters → Remote.StandardService
unfolding append_urls
new_service fp = record {
  id = [];
  resource_type = codes "StandardService";
  name = fp.name;
  description = given fp.description [];
  trusted = given fp.trusted false;
  tags = fp.tags;
  service_urls = append_urls fp.service_urls [];
  organization_guid = fp.organization_id;
}

unfoldable pub updated_service : Text → Mdm.StandardServiceParameters → Remote.StandardService
unfolding append_urls
updated_service external_name fp = record {
  id = external_name;
  resource_type = codes "StandardService";
  name = fp.name;
  description = given fp.description [];
  trusted = given fp.trusted false;
  tags = fp.tags;
  service_urls = append_urls fp.service_urls [];
  organization_guid = fp.organization_id;
}

abbrev pub service_by_id : Text → Remote.StandardService
service_by_id external_name = record {
  id = external_name;
  resource_type = [];
  name = [];
  description = [];
  trusted = false;
  tags = [];
  service_urls = [];
  organization_guid = none;
}

module _ {W : Type 0}
    (api : RemoteApi W Remote.StandardService Remote.StandardService Remote.StandardService) where
  unfoldable pub observe : M (Object × W) ExternalObservation
  unfolding is_up_to_date record_status
  observe = asserted mdm_standard_service_kind (observe_external observer api.get)

  unfoldable pub create : M (Object × W) ExternalCreation
  unfolding new_service
  create = asserted mdm_standard_service_kind (do
    created ←
        create_external (from_spec new_service) api.create "cannot create MDM standard service"
          (λ r. r.id)
    pure no_details)

  unfoldable pub update : M (Object × W) (Unit {0})
  unfolding updated_service
  update =
      asserted mdm_standard_service_kind (
        update_external (from_named updated_service) api.update
          "cannot update MDM standard service")

  unfoldable pub delete : M (Object × W) (Unit {0})
  delete =
      asserted mdm_standard_service_kind
        (delete_external service_by_id api.delete "cannot delete MDM standard service")

  -- `external`, whose calls are these.
  abbrev pub external : ExternalClient W
  external = record { observe = observe; create = create; update = update; delete = delete }

unfoldable pub connect :
    {W Iam Mdm Provisioning : Type 0}
    → Environment W Iam Mdm Provisioning
    → M (Object × W) (Client Iam Mdm Provisioning)
unfolding connect_mdm
connect env = connect_mdm mdm_standard_service_kind env
