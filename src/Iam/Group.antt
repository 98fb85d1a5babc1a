-- ===== src/Iam/Group.antt =====
-- `internal/controller/group/group.go`.
use provider_dip.Base.{Text, Bool, true, false, some, [], given, differs, ◌!=◌}
use provider_dip.Base.{text_Comparable, int_Comparable, if◌then◌else◌}
use provider_dip.Go.{M, pure, ◌>>=◌}
use provider_dip.Managed.{ExternalObservation, ExternalCreation, no_details}
use provider_dip.Apis.Iam.{GroupParameters, GroupObservation}
use provider_dip.Apis.Object.{Object}
use provider_dip.Apis.Kinds.{group_kind}
use provider_dip.Iam.Remote
use provider_dip.Controller.{RemoteApi, Observer, asserted, from_spec, from_named, observe_external}
use provider_dip.Controller.{create_external, update_external, delete_external}
use provider_dip.Controller.Connect
use provider_dip.Controller.Session.{ExternalClient}
use provider_dip.Controller.Connect.{Environment}
use provider_dip.Dip.Client.{Client}

unfoldable pub is_up_to_date : GroupParameters → Remote.Group → Bool
is_up_to_date fp group =
    if fp.name != group.name
    then false
    else if differs fp.description group.description
    then false
    else true

unfoldable pub record_status : Remote.Group → GroupObservation → GroupObservation
record_status group status = record status { id = some group.id }

abbrev pub observer : Observer GroupParameters GroupObservation Remote.Group
observer = record {
  message = "cannot get group";
  record_status = record_status;
  is_up_to_date = is_up_to_date;
}

-- What `Create` and `Update` send.
unfoldable pub new_group : GroupParameters → Remote.Group
new_group fp = record {
  id = [];
  name = fp.name;
  description = given fp.description [];
  managing_organization = given fp.managing_organization_id [];
}

unfoldable pub updated_group : Text → GroupParameters → Remote.Group
updated_group external_name fp = record {
  id = external_name;
  name = fp.name;
  description = given fp.description [];
  managing_organization = [];
}

abbrev pub group_by_id : Text → Remote.Group
group_by_id external_name = record {
  id = external_name;
  name = [];
  description = [];
  managing_organization = [];
}

module _ {W : Type 0} (api : RemoteApi W Remote.Group Remote.Group Remote.Group) where
  unfoldable pub observe : M (Object × W) ExternalObservation
  unfolding is_up_to_date record_status
  observe = asserted group_kind (observe_external observer api.get)

  unfoldable pub create : M (Object × W) ExternalCreation
  unfolding new_group
  create = asserted group_kind (do
    created ← create_external (from_spec new_group) api.create "cannot create group" (λ r. r.id)
    pure no_details)

  unfoldable pub update : M (Object × W) (Unit {0})
  unfolding updated_group
  update =
      asserted group_kind
        (update_external (from_named updated_group) api.update "cannot update group")

  unfoldable pub delete : M (Object × W) (Unit {0})
  delete = asserted group_kind (delete_external group_by_id api.delete "cannot delete group")

  -- `external`, whose calls are these.
  abbrev pub external : ExternalClient W
  external = record { observe = observe; create = create; update = update; delete = delete }

unfoldable pub connect :
    {W Iam Mdm Provisioning : Type 0}
    → Environment W Iam Mdm Provisioning
    → M (Object × W) (Client Iam Mdm Provisioning)
unfolding Connect.connect
connect env = Connect.connect group_kind env
