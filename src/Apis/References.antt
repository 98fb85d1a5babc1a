-- ===== src/Apis/References.antt =====
-- The reference resolvers: `apis/iam/v1alpha1/zz_generated.resolvers.go` and
-- `apis/mdm/v1alpha1/zz_generated.resolvers.go`. The resolver of crossplane-runtime and its
-- conversions between texts and pointers are parameters; a reference and a selector are opaque.
pub mod Kinds
pub mod Urls
pub mod Loop
pub mod Frame
use provider_dip.Base.{Text, String, Option, ◌≡◌}
use provider_dip.Go.{Attempt, Outcome, M, call, wrapping, pure, ok, ◌>>=◌, ◌>>◌}
use provider_dip.Managed.{Managed}
use provider_dip.Setup.{Resource}

-- `reference.NamespacedResolutionRequest` and its response; what is extracted is always the external
-- name.
pub record Request (Ref Sel : Type 0) : Type 0 where
  pub current_value : Text
  pub namespace : Text
  pub reference : Option Ref
  pub selector : Option Sel
  pub to : Resource

pub record Response (Ref : Type 0) : Type 0 where
  pub resolved_value : Text
  pub resolved_reference : Option Ref

pub record Resolver (W Ref Sel : Type 0) : Type 0 where
  pub from_ptr_value : Option Text → Text
  pub to_ptr_value : Text → Option Text
  pub resolve : Request Ref Sel → W → Attempt (Response Ref) × W

-- A resource with the fields `…Ref` and `…Selector` beside its id.
pub record Referring (P S Ref Sel : Type 0) : Type 0 where
  pub managed : Managed P S
  pub reference : Option Ref
  pub selector : Option Sel

-- The id that a reference sets, the type of object that it is for, and the path in the error.
pub record Field (P : Type 0) : Type 0 where
  pub value : P → Option Text
  pub set_value : Option Text → P → P
  pub to : Resource
  pub path : String
  pub set-value : (fp : P) → set_value (value fp) fp ≡ fp

module _ {P S W Ref Sel : Type 0} (r : Resolver W Ref Sel) (field : Field P) where
  abbrev pub request : Referring P S Ref Sel → Request Ref Sel
  request mg = record {
    current_value = r.from_ptr_value (field.value mg.managed.for_provider);
    namespace = mg.managed.namespace;
    reference = mg.reference;
    selector = mg.selector;
    to = field.to;
  }

  abbrev pub resolved : Response Ref → Referring P S Ref Sel → Referring P S Ref Sel
  resolved rsp mg = record mg {
    managed = record mg.managed {
      for_provider = field.set_value (r.to_ptr_value rsp.resolved_value) mg.managed.for_provider;
    };
    reference = rsp.resolved_reference;
  }

  abbrev resolve_at : Referring P S Ref Sel → M (Referring P S Ref Sel × W) (Attempt (Response Ref))
  resolve_at mg (old, w) = let (answer, w') = r.resolve (request mg) w in (ok answer, (old, w'))

  abbrev pub assign : Response Ref → M (Referring P S Ref Sel × W) (Unit {0})
  assign rsp (mg, w) = (ok tt, (resolved rsp mg, w))

  -- `ResolveReferences` of a resource with one reference.
  unfoldable pub resolve_references : M (Referring P S Ref Sel × W) (Unit {0})
  resolve_references (mg, w) =
      (do answer ← resolve_at mg; rsp ← wrapping field.path answer; assign rsp) (mg, w)
