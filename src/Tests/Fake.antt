-- ===== src/Tests/Fake.antt =====
-- A remote service in memory, with room for one resource, for the tests.
use provider_dip.Base.{
  Text, true, Option, none, some, ◌≡◌, refl, codes, text_Comparable, text_eq_iff, ◌==◌,
  if◌then◌else◌, ap, subst, ◌∙◌,
}
use provider_dip.Go.{foreign}
use provider_dip.Util.{is_valid_uuid, is_not_found_or_invalid_id, uuid_regex, is_hex}
use provider_dip.Regex.{matches_full}
use provider_dip.Controller.{Reply, RemoteApi, is_gone}
use provider_dip.Controller.Lifecycle.{StoresCreated, StoresUpdated}
use provider_dip.Controller.Reconcile.Converge.{OnlyReads}
use provider_dip.Controller.Reconcile.Reaches.{Available}
use provider_dip.Controller.Deletion.{Forgets}

abbrev pub fresh : Text
fresh = codes "0b8f7f0e-1c3a-4d5e-9f60-a1b2c3d4e5f6"

fresh_valid : is_valid_uuid fresh ≡ true
unfolding is_valid_uuid matches_full uuid_regex is_hex
fresh_valid = refl

some-injective : {A : Type 0} {a b : A} → some a ≡ some b → a ≡ b
some-injective h = cc

abbrev not_found : {R : Type 0} → Reply R
not_found = record { value = none; response = some 404; error = some (foreign (codes "404")) }

abbrev done : {R : Type 0} → R → Reply R
done r = record { value = some r; response = some 200; error = none }

module _ {New Old R : Type 0} (id : R → Text) (old_id : Old → Text) (make : New → R)
    (change : Old → R) where
  abbrev find : Text → Option R → Reply R
  find name none = not_found
  find name (some r) = if id r == name then done r else not_found

  abbrev pub service : RemoteApi (Option R) New Old R
  service = record {
    get = λ name w. (find name w, w);
    create = λ body w. (done (make body), some (make body));
    update = λ body w. (done (change body), some (change body));
    delete = λ body w. (done true, none);
  }

  find_own : (name : Text) (r : R) → id r ≡ name → find name (some r) ≡ done r
  find_own name r h = rw ((text_eq_iff (id r) name).1 h)

  pub service-StoresCreated :
      (Kept : New → R → Type 0)
      → ((body : New) → id (make body) ≡ fresh)
      → ((body : New) → Kept body (make body))
      → StoresCreated service id Kept
  service-StoresCreated Kept named kept = record {
    created = λ body w r _ same.
        let made : make body ≡ r = some-injective same in
        (
          subst (λ q. is_valid_uuid (id q) ≡ true) made
              (ap is_valid_uuid (named body) ∙ fresh_valid),
          (
            make body,
            (
              ap (λ q. q.error) (find_own (id r) (make body) (ap id made)),
              ap (λ q. q.value) (find_own (id r) (make body) (ap id made)),
            ),
            kept body,
          ),
        );
  }

  pub service-StoresUpdated :
      (Kept : Old → R → Type 0)
      → ((body : Old) → id (change body) ≡ old_id body)
      → ((body : Old) → Kept body (change body))
      → StoresUpdated service old_id Kept
  service-StoresUpdated Kept named kept = record {
    updated = λ body w _. (
      change body,
      (
        ap (λ q. q.error) (find_own (old_id body) (change body) (named body)),
        ap (λ q. q.value) (find_own (old_id body) (change body) (named body)),
      ),
      kept body,
    );
  }

  pub service-Forgets : Forgets service old_id
  unfolding is_gone is_not_found_or_invalid_id
  service-Forgets = record { forgotten = λ body w _. ((_, refl), refl) }

  pub service-OnlyReads : OnlyReads service
  service-OnlyReads = record { same = λ name w. refl }

  pub service-Available : Available service
  service-Available = record { creates = λ body w. (refl, (_, refl)); updates = λ body w. refl }
