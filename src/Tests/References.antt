-- ===== src/Tests/References.antt =====
-- The reference resolvers, run with a resolver that counts its look-ups.
use provider_dip.Base.{
  ℕ, false, ◌+◌, Text, List, Option, none, some, [], ◌∷◌, ◌≡◌, ◌≢◌, ◌↔◌, refl, codes, inl, inr, map,
  pos,
}
use provider_dip.Go.{Attempt, ok, foreign}
use provider_dip.Apis.Iam.{ClientParameters, ClientObservation}
use provider_dip.Apis.References.{Response, Resolver, Referring, resolve_references}
use provider_dip.Apis.References.Kinds.{client_field}
use provider_dip.Apis.References.Frame.{KeepsValues, resolve_references_given}
use provider_dip.Apis.References.Urls.{ReferringUrl, resolve_urls}
use provider_dip.Apis.References.Loop.{fixed, Resolves, resolve_urls-fixed, resolve_urls-Resolves}
use provider_dip.Tests.Client.{cr}

-- A reference is the id of its object; without one nothing is found.
abbrev find : Option Text → ℕ → Attempt (Response Text) × ℕ
find none lookups = (inl (foreign (codes "no reference")), lookups)
find (some id) lookups =
    (inr (record { resolved_value = id; resolved_reference = some id }), lookups + 1)

abbrev resolve : Text → Option Text → ℕ → Attempt (Response Text) × ℕ
resolve [] reference lookups = find reference lookups
resolve (c ∷ value) reference lookups =
    (inr (record { resolved_value = c ∷ value; resolved_reference = reference }), lookups)

abbrev from_ptr : Option Text → Text
from_ptr none = []
from_ptr (some value) = value

abbrev to_ptr : Text → Option Text
to_ptr [] = none
to_ptr (c ∷ value) = some (c ∷ value)

abbrev resolver : Resolver ℕ Text (Unit {0})
resolver = record {
  from_ptr_value = from_ptr;
  to_ptr_value = to_ptr;
  resolve = λ req lookups. resolve req.current_value req.reference lookups;
}

resolve-kept :
    (value : Text) (reference : Option Text) (lookups : ℕ)
    → value ≢ []
    → resolve value reference lookups
      ≡ (inr (record { resolved_value = value; resolved_reference = reference }), lookups)
resolve-kept [] reference lookups h = absurd (h refl)
resolve-kept (c ∷ value) reference lookups h = refl

to_ptr-some : (value : Text) → value ≢ [] → to_ptr value ≡ some value
to_ptr-some [] h = absurd (h refl)
to_ptr-some (c ∷ value) h = refl

-- No reference here has the policy to be resolved always.
keeps : KeepsValues resolver (λ _. false)
keeps = record {
  kept = λ req w cached there. resolve-kept req.current_value req.reference w there;
  from_some = λ value. refl;
  to_some = to_ptr-some;
}

abbrev client : Referring ClientParameters ClientObservation Text (Unit {0})
client = record {
  managed = record (cr []) {
    for_provider = record (cr []).for_provider { application_id = some (codes "app") };
  };
  reference = some (codes "other");
  selector = none;
}

resolve_references_given_example :
    resolve_references resolver client_field (client, 0) ≡ (ok tt, (client, 0))
resolve_references_given_example =
    resolve_references_given resolver client_field client 0 (codes "app") keeps refl refl (λ e. cc)

abbrev url : Text → Option Text → Option Text → ReferringUrl Text (Unit {0})
url address id reference = record {
  service_url = record { url = address; sort_order = some (pos 1); authentication_method_id = id };
  reference = reference;
  selector = none;
}

abbrev urls : List (ReferringUrl Text (Unit {0}))
urls = url (codes "a") none (some (codes "1")) ∷ url (codes "b") none none ∷ []

resolve_urls-fixed_example :
    map fixed (resolve_urls resolver (codes "team") urls 0).1.0
    ≡ (codes "a", some (pos 1), none) ∷ (codes "b", some (pos 1), none) ∷ []
resolve_urls-fixed_example = resolve_urls-fixed resolver (codes "team") urls 0

abbrev good : List (ReferringUrl Text (Unit {0}))
good = url (codes "a") none (some (codes "1")) ∷ []

abbrev done : List (ReferringUrl Text (Unit {0}))
done = url (codes "a") (some (codes "1")) (some (codes "1")) ∷ []

resolve_urls-Resolves_example :
    (resolve_urls resolver (codes "team") good 0 ≡ (ok tt, (done, 1)))
    ↔ Resolves resolver (codes "team") good 0 done 1
resolve_urls-Resolves_example = resolve_urls-Resolves resolver (codes "team") good done 0 1
