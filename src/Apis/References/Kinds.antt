-- ===== src/Apis/References/Kinds.antt =====
-- `ResolveReferences` of the kinds with one reference.
use provider_dip.Base.{refl}
use provider_dip.Go.{M}
use provider_dip.Apis.Iam
use provider_dip.Apis.Mdm
use provider_dip.Setup
use provider_dip.Apis.References.{Field, Referring, Resolver, resolve_references}

abbrev pub application_field : Field Iam.ApplicationParameters
application_field = record {
  value = λ fp. fp.proposition_id;
  set_value = λ id fp. record fp { proposition_id = id };
  to = Setup.proposition;
  path = "mg.Spec.ForProvider.PropositionID";
  set-value = λ fp. refl;
}

abbrev pub client_field : Field Iam.ClientParameters
client_field = record {
  value = λ fp. fp.application_id;
  set_value = λ id fp. record fp { application_id = id };
  to = Setup.application;
  path = "mg.Spec.ForProvider.ApplicationID";
  set-value = λ fp. refl;
}

abbrev pub email_template_field : Field Iam.EmailTemplateParameters
email_template_field = record {
  value = λ fp. fp.managing_organization_id;
  set_value = λ id fp. record fp { managing_organization_id = id };
  to = Setup.organization;
  path = "mg.Spec.ForProvider.ManagingOrganizationID";
  set-value = λ fp. refl;
}

abbrev pub group_field : Field Iam.GroupParameters
group_field = record {
  value = λ fp. fp.managing_organization_id;
  set_value = λ id fp. record fp { managing_organization_id = id };
  to = Setup.organization;
  path = "mg.Spec.ForProvider.ManagingOrganizationID";
  set-value = λ fp. refl;
}

abbrev pub organization_field : Field Iam.OrganizationParameters
organization_field = record {
  value = λ fp. fp.parent_org_id;
  set_value = λ id fp. record fp { parent_org_id = id };
  to = Setup.organization;
  path = "mg.Spec.ForProvider.ParentOrgID";
  set-value = λ fp. refl;
}

abbrev pub password_policy_field : Field Iam.PasswordPolicyParameters
password_policy_field = record {
  value = λ fp. fp.managing_organization_id;
  set_value = λ id fp. record fp { managing_organization_id = id };
  to = Setup.organization;
  path = "mg.Spec.ForProvider.ManagingOrganizationID";
  set-value = λ fp. refl;
}

abbrev pub proposition_field : Field Iam.PropositionParameters
proposition_field = record {
  value = λ fp. fp.organization_id;
  set_value = λ id fp. record fp { organization_id = id };
  to = Setup.organization;
  path = "mg.Spec.ForProvider.OrganizationID";
  set-value = λ fp. refl;
}

abbrev pub role_field : Field Iam.RoleParameters
role_field = record {
  value = λ fp. fp.managing_organization_id;
  set_value = λ id fp. record fp { managing_organization_id = id };
  to = Setup.organization;
  path = "mg.Spec.ForProvider.ManagingOrganizationID";
  set-value = λ fp. refl;
}

abbrev pub service_field : Field Iam.ServiceParameters
service_field = record {
  value = λ fp. fp.application_id;
  set_value = λ id fp. record fp { application_id = id };
  to = Setup.application;
  path = "mg.Spec.ForProvider.ApplicationID";
  set-value = λ fp. refl;
}

abbrev pub user_field : Field Iam.UserParameters
user_field = record {
  value = λ fp. fp.organization_id;
  set_value = λ id fp. record fp { organization_id = id };
  to = Setup.organization;
  path = "mg.Spec.ForProvider.OrganizationID";
  set-value = λ fp. refl;
}

abbrev pub mdm_application_field : Field Mdm.ApplicationParameters
mdm_application_field = record {
  value = λ fp. fp.proposition_id;
  set_value = λ id fp. record fp { proposition_id = id };
  to = Setup.mdm_proposition;
  path = "mg.Spec.ForProvider.PropositionID";
  set-value = λ fp. refl;
}

abbrev pub mdm_device_group_field : Field Mdm.DeviceGroupParameters
mdm_device_group_field = record {
  value = λ fp. fp.application_id;
  set_value = λ id fp. record fp { application_id = id };
  to = Setup.mdm_application;
  path = "mg.Spec.ForProvider.ApplicationID";
  set-value = λ fp. refl;
}

abbrev pub mdm_device_type_field : Field Mdm.DeviceTypeParameters
mdm_device_type_field = record {
  value = λ fp. fp.device_group_id;
  set_value = λ id fp. record fp { device_group_id = id };
  to = Setup.mdm_device_group;
  path = "mg.Spec.ForProvider.DeviceGroupID";
  set-value = λ fp. refl;
}

module _ {W Ref Sel : Type 0} (r : Resolver W Ref Sel) where
  unfoldable pub resolve_application :
      M (Referring Iam.ApplicationParameters Iam.ApplicationObservation Ref Sel × W) (Unit {0})
  unfolding resolve_references
  resolve_application = resolve_references r application_field

  unfoldable pub resolve_client :
      M (Referring Iam.ClientParameters Iam.ClientObservation Ref Sel × W) (Unit {0})
  unfolding resolve_references
  resolve_client = resolve_references r client_field

  unfoldable pub resolve_email_template :
      M (Referring Iam.EmailTemplateParameters Iam.EmailTemplateObservation Ref Sel × W) (Unit {0})
  unfolding resolve_references
  resolve_email_template = resolve_references r email_template_field

  unfoldable pub resolve_group :
      M (Referring Iam.GroupParameters Iam.GroupObservation Ref Sel × W) (Unit {0})
  unfolding resolve_references
  resolve_group = resolve_references r group_field

  unfoldable pub resolve_organization :
      M (Referring Iam.OrganizationParameters Iam.OrganizationObservation Ref Sel × W) (Unit {0})
  unfolding resolve_references
  resolve_organization = resolve_references r organization_field

  unfoldable pub resolve_password_policy :
      M
        (Referring Iam.PasswordPolicyParameters Iam.PasswordPolicyObservation Ref Sel × W)
        (Unit {0})
  unfolding resolve_references
  resolve_password_policy = resolve_references r password_policy_field

  unfoldable pub resolve_proposition :
      M (Referring Iam.PropositionParameters Iam.PropositionObservation Ref Sel × W) (Unit {0})
  unfolding resolve_references
  resolve_proposition = resolve_references r proposition_field

  unfoldable pub resolve_role :
      M (Referring Iam.RoleParameters Iam.RoleObservation Ref Sel × W) (Unit {0})
  unfolding resolve_references
  resolve_role = resolve_references r role_field

  unfoldable pub resolve_service :
      M (Referring Iam.ServiceParameters Iam.ServiceObservation Ref Sel × W) (Unit {0})
  unfolding resolve_references
  resolve_service = resolve_references r service_field

  unfoldable pub resolve_user :
      M (Referring Iam.UserParameters Iam.UserObservation Ref Sel × W) (Unit {0})
  unfolding resolve_references
  resolve_user = resolve_references r user_field

  unfoldable pub resolve_mdm_application :
      M (Referring Mdm.ApplicationParameters Mdm.ApplicationObservation Ref Sel × W) (Unit {0})
  unfolding resolve_references
  resolve_mdm_application = resolve_references r mdm_application_field

  unfoldable pub resolve_mdm_device_group :
      M (Referring Mdm.DeviceGroupParameters Mdm.DeviceGroupObservation Ref Sel × W) (Unit {0})
  unfolding resolve_references
  resolve_mdm_device_group = resolve_references r mdm_device_group_field

  unfoldable pub resolve_mdm_device_type :
      M (Referring Mdm.DeviceTypeParameters Mdm.DeviceTypeObservation Ref Sel × W) (Unit {0})
  unfolding resolve_references
  resolve_mdm_device_type = resolve_references r mdm_device_type_field
