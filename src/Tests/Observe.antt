-- ===== src/Tests/Observe.antt =====
-- The common steps of the handlers, run on the service of groups.
use provider_dip.Base.{ℕ, ◌+◌, Text, Option, true, none, some, ◌≡◌, ◌≢◌, ◌↔◌, codes}
use provider_dip.Go.{Error, foreign, wrap, fail}
use provider_dip.Util.{is_valid_uuid}
use provider_dip.Iam.Group
use provider_dip.Iam.Remote
use provider_dip.Controller.{Reply, observe_external}
use provider_dip.Controller.Observe.{Has, Exists, observe-Exists_iff, observe_fails_iff}
use provider_dip.Tests.Group.{cr, remote}
use provider_dip.Tests.Fake.{fresh}

abbrev failure : Error
failure = wrap (foreign (codes "503")) "cannot get group"

abbrev broken : Text → ℕ → Reply Remote.Group × ℕ
broken name calls =
    (record { value = none; response = some 503; error = some (foreign (codes "503")) }, calls + 1)

observe-Exists_iff_example : Exists Group.observer remote.get (cr fresh) none ↔ (
    (is_valid_uuid fresh ≡ true)
    × ((r : Remote.Group) × Has Group.observer remote.get (cr fresh) none r))
observe-Exists_iff_example = observe-Exists_iff Group.observer remote.get (cr fresh) none

abbrev status : Option ℕ
status = some 503

observe_fails_iff_example :
    ((observe_external Group.observer broken (cr fresh, 0)).0 ≡ fail failure) ↔ (
      (is_valid_uuid fresh ≡ true)
      × ((e : Error) × (some (foreign (codes "503")) ≡ some e)
          × (status ≢ some 400)
          × (status ≢ some 404)
          × (failure ≡ wrap e "cannot get group")))
observe_fails_iff_example = observe_fails_iff Group.observer broken (cr fresh) 0 failure
