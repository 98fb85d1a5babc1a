-- ===== src/Iam/Role.antt =====
-- `internal/controller/role/role.go`.
use provider_dip.Base.{Text, Bool, true, false, some, [], given, differs, ◌!=◌}
use provider_dip.Base.{text_Comparable, int_Comparable, if◌then◌else◌}
use provider_dip.Go.{M, pure, ◌>>=◌}
use provider_dip.Managed.{ExternalObservation, ExternalCreation, no_details}
use provider_dip.Apis.Iam.{RoleParameters, RoleObservation}
use provider_dip.Apis.Object.{Object}
use provider_dip.Apis.Kinds.{role_kind}
use provider_dip.Iam.Remote
use provider_dip.Controller.{RemoteApi, Observer, asserted, from_spec, observe_external}
use provider_dip.Controller.{create_external, delete_external}
use provider_dip.Controller.Connect
use provider_dip.Controller.Session.{ExternalClient}
use provider_dip.Controller.Connect.{Environment}
use provider_dip.Dip.Client.{Client}

unfoldable pub is_up_to_date : RoleParameters → Remote.Role → Bool
is_up_to_date fp role =
    if fp.name != role.name
    then false
    else if differs fp.description role.description
    then false
    else true

unfoldable pub record_status : Remote.Role → RoleObservation → RoleObservation
record_status role status = record status { id = some role.id }

abbrev pub observer : Observer RoleParameters RoleObservation Remote.Role
observer = record {
  message = "cannot get role";
  record_status = record_status;
  is_up_to_date = is_up_to_date;
}

-- The arguments of `CreateRole`.
unfoldable pub new_role : RoleParameters → Remote.RoleRequest
new_role fp = record {
  name = fp.name;
  description = given fp.description [];
  managing_organization = given fp.managing_organization_id [];
}

abbrev pub role_by_id : Text → Remote.Role
role_by_id external_name = record { id = external_name; name = []; description = [] }

module _ {W : Type 0} (api : RemoteApi W Remote.RoleRequest Remote.Role Remote.Role) where
  unfoldable pub observe : M (Object × W) ExternalObservation
  unfolding is_up_to_date record_status
  observe = asserted role_kind (observe_external observer api.get)

  unfoldable pub create : M (Object × W) ExternalCreation
  unfolding new_role
  create = asserted role_kind (do
    created ← create_external (from_spec new_role) api.create "cannot create role" (λ r. r.id)
    pure no_details)

  -- `Update` calls nothing: the API has no update of this resource.
  unfoldable pub update : M (Object × W) (Unit {0})
  update = asserted role_kind (pure tt)

  unfoldable pub delete : M (Object × W) (Unit {0})
  delete = asserted role_kind (delete_external role_by_id api.delete "cannot delete role")

  -- `external`, whose calls are these.
  abbrev pub external : ExternalClient W
  external = record { observe = observe; create = create; update = update; delete = delete }

unfoldable pub connect :
    {W Iam Mdm Provisioning : Type 0}
    → Environment W Iam Mdm Provisioning
    → M (Object × W) (Client Iam Mdm Provisioning)
unfolding Connect.connect
connect env = Connect.connect role_kind env
