-- ===== src/Apis/References/Urls.antt =====
-- `ResolveReferences` of a standard service: the references of its service URLs, one after the other.
use provider_dip.Base.{Text, List, Option, [], ◌∷◌, inl, inr}
use provider_dip.Go.{Attempt, Outcome, ok, fail, wrap}
use provider_dip.Apis.Mdm
use provider_dip.Setup
use provider_dip.Apis.References.{Request, Response, Resolver}

-- A service URL with its reference and its selector.
pub record ReferringUrl (Ref Sel : Type 0) : Type 0 where
  pub service_url : Mdm.ServiceUrl
  pub reference : Option Ref
  pub selector : Option Sel

module _ {W Ref Sel : Type 0} (r : Resolver W Ref Sel) (namespace : Text) where
  abbrev pub url_request : ReferringUrl Ref Sel → Request Ref Sel
  url_request u = record {
    current_value = r.from_ptr_value u.service_url.authentication_method_id;
    namespace = namespace;
    reference = u.reference;
    selector = u.selector;
    to = Setup.mdm_authentication_method;
  }

  abbrev pub resolved_url : Response Ref → ReferringUrl Ref Sel → ReferringUrl Ref Sel
  resolved_url rsp u = record u {
    service_url = record u.service_url {
      authentication_method_id = r.to_ptr_value rsp.resolved_value;
    };
    reference = rsp.resolved_reference;
  }

  -- What a round leaves, with what the later rounds do.
  abbrev pub after_answer :
      ReferringUrl Ref Sel
      → List (ReferringUrl Ref Sel)
      → W
      → Outcome (Unit {0}) × (List (ReferringUrl Ref Sel) × W)
      → Attempt (Response Ref)
      → Outcome (Unit {0}) × (List (ReferringUrl Ref Sel) × W)
  after_answer u us w rest (inl e) =
      (fail (wrap e "mg.Spec.ForProvider.ServiceURLs[i3].AuthenticationMethodID"), (u ∷ us, w))
  after_answer u us w rest (inr rsp) = (rest.0, (resolved_url rsp u ∷ rest.1.0, rest.1.1))

  -- The loop, on the URLs from an index on; the URLs before an error stay resolved.
  unfoldable pub resolve_urls :
      List (ReferringUrl Ref Sel) → W → Outcome (Unit {0}) × (List (ReferringUrl Ref Sel) × W)
  resolve_urls [] w = (ok tt, ([], w))
  resolve_urls (u ∷ us) w =
      let (answer, w') = r.resolve (url_request u) w in
      let rest = resolve_urls us w' in after_answer u us w' rest answer
