-- ===== src/Managed.antt =====
-- What all managed resources share: the metadata that the handlers use, the desired state
-- (`spec.forProvider`), the observed state (`status.atProvider`) and the Ready condition.
use provider_dip.Base.{Text, Option, Bool, List, []}

-- The reason of the Ready condition: `xpv1.Available()`, `xpv1.Creating()`, `xpv1.Deleting()`.
pub data Ready : Type 0 where
  available creating deleting : Ready

pub record Managed (P S : Type 0) : Type 0 where
  -- the annotation `crossplane.io/external-name`, "" where there is none
  pub external_name : Text
  pub namespace : Text
  -- the name in `spec.providerConfigRef`
  pub provider_config_ref : Option Text
  pub for_provider : P
  pub at_provider : S
  pub ready : Option Ready

-- `managed.ExternalObservation` and `managed.ExternalCreation`; an `ExternalUpdate` and an
-- `ExternalDelete` carry nothing here.
pub record ExternalObservation : Type 0 where
  pub resource_exists : Bool
  pub resource_up_to_date : Bool

pub record ExternalCreation : Type 0 where
  pub connection_details : List (Text × Text)

abbrev pub no_details : ExternalCreation
no_details = record { connection_details = [] }
