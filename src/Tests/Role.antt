-- ===== src/Tests/Role.antt =====
-- The handlers of `internal/controller/role/role.go`, run.
use provider_dip.Base.{Text, Option, none, some, [], ◌≡◌, refl, codes}
use provider_dip.Go.{ok}
use provider_dip.Managed.{Managed, no_details, ExternalCreation}
use provider_dip.Apis.Iam.{RoleParameters, RoleObservation}
use provider_dip.Apis.Object.{role}
use provider_dip.Iam.Remote
use provider_dip.Iam.Role
use provider_dip.Iam.Converge.Role.{Kept}
use provider_dip.Controller.{RemoteApi, asserted, create_external, checked, dereference}
use provider_dip.Controller.Lifecycle.{StoresCreated}
use provider_dip.Tests.Fake
use provider_dip.Tests.Fake.{fresh, service-StoresCreated, service-Forgets}

abbrev fp : RoleParameters
fp = record {
  name = codes "alpha";
  description = some (codes "first");
  managing_organization_id = none;
  permissions = none;
}

abbrev pub cr : Text → Managed RoleParameters RoleObservation
cr external_name = record {
  external_name = external_name;
  namespace = codes "team";
  provider_config_ref = none;
  for_provider = fp;
  at_provider = record { id = none };
  ready = none;
}

abbrev make : Remote.RoleRequest → Remote.Role
make = λ body. record { id = fresh; name = body.name; description = body.description }

abbrev change : Remote.Role → Remote.Role
change = λ body. body

abbrev pub remote : RemoteApi (Option Remote.Role) Remote.RoleRequest Remote.Role Remote.Role
remote = Fake.service (λ r. r.id) (λ r. r.id) make change

pub stores : StoresCreated remote (λ r. r.id) Kept
stores =
    service-StoresCreated (λ r. r.id) (λ r. r.id) make change Kept (λ body. refl)
      (λ body. (refl, refl))

abbrev details : ExternalCreation
details = no_details

created : (Role.create remote (role (cr []), none)).0 ≡ ok details
unfolding Role.create asserted create_external checked dereference Role.new_role
created = refl
