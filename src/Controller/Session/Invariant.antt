-- ===== src/Controller/Session/Invariant.antt =====
-- What no sequence of calls changes.
use provider_dip.Base.{Text, String, some, ◌≡◌, refl, ap, ◌∙◌}
use provider_dip.Go.{M, ◌>>=◌}
use provider_dip.Managed.{Managed, ExternalCreation}
use provider_dip.Apis.Object.{Object, Kind}
use provider_dip.Controller.{
  RemoteApi, Handler, Observer, asserted, observe_external, create_external,
}
use provider_dip.Controller.Frame.{ReadsOnly, Keeps}
use provider_dip.Controller.Lifecycle.{GivesUuid}
use provider_dip.Controller.Session.{
  ExternalClient, Session, observed, created, updated, deleted, changed, here, next, IsNamed, Stays,
}
use provider_dip.Controller.Session.Tame.{
  Tame, Trims, asserted-Stays, observe_external-Tame, create_external-Tame,
}

module _ {P S : Type 0} (kind : Kind P S) where
  Stays-later :
      (cr cr' : Managed P S) (mg mg' : Object)
      → Keeps cr cr'
      → Stays kind cr' mg'
      → mg ≡ mg'
      → Stays kind cr mg
  Stays-later cr cr' mg mg' (spec, namespace, config)
        (cr'', found, (spec', namespace', config'), named) e =
      (
        cr'',
        ap kind.assert e ∙ found,
        (spec' ∙ spec, namespace' ∙ namespace, config' ∙ config),
        named,
      )

module _ {P S W : Type 0} (kind : Kind P S) where
  abbrev pub Preserves : {A : Type 0} → M (Object × W) A → Type 0
  Preserves m =
      (mg : Object) (cr : Managed P S) (w : W)
      → kind.assert mg ≡ some cr
      → IsNamed cr
      → Stays kind cr (m (mg, w)).1.0

  -- What each of the four calls preserves, every sequence of calls does, whatever others do to DIP
  -- and to the cluster in between.
  pub Session-Stays :
      (c : ExternalClient W)
      → Preserves c.observe
      → Preserves c.create
      → Preserves c.update
      → Preserves c.delete
      → (s : Object × W) (cr : Managed P S) {t : Object × W} → kind.assert s.0 ≡ some cr
      → IsNamed cr
      → Session c s t
      → Stays kind cr t.0
  Session-Stays c observes creates updates deletes s cr found there here =
      (cr, found, (refl, refl, refl), there)
  Session-Stays c observes creates updates deletes s cr found there
        (next {t = t} {u = u} before call) =
      let (cr', found', keeps, named) =
        Session-Stays c observes creates updates deletes s cr found there before in
      elim call [
        | observed e ↦
            Stays-later kind cr cr' u.0 _ keeps (observes t.0 cr' t.1 found' named)
              (ap (λ q. q.0) e)
        | created e ↦
            Stays-later kind cr cr' u.0 _ keeps (creates t.0 cr' t.1 found' named) (ap (λ q. q.0) e)
        | updated e ↦
            Stays-later kind cr cr' u.0 _ keeps (updates t.0 cr' t.1 found' named) (ap (λ q. q.0) e)
        | deleted e ↦
            Stays-later kind cr cr' u.0 _ keeps (deletes t.0 cr' t.1 found' named) (ap (λ q. q.0) e)
        | changed e ↦
            Stays-later kind cr cr' u.0 t.0 keeps (cr', found', (refl, refl, refl), named) e
      ]

  -- The handlers of the controllers: the common `Observe` and `Create`, and a tame `Update` and
  -- `Delete`.
  pub handlers_Session-Stays :
      {New Old R : Type 0} (o : Observer P S R) (api : RemoteApi W New Old R)
      (request : Handler P S W New) (message : String) (id : R → Text)
      (finish : R → Handler P S W ExternalCreation) (update delete : Handler P S W (Unit {0}))
      → GivesUuid api id
      → ReadsOnly request
      → Trims finish
      → Tame update
      → Tame delete
      → (s : Object × W) (cr : Managed P S) {t : Object × W} → kind.assert s.0 ≡ some cr
      → IsNamed cr
      → let c : ExternalClient W = record {
        observe = asserted kind (observe_external o api.get);
        create = asserted kind (create_external request api.create message id >>= finish);
        update = asserted kind update;
        delete = asserted kind delete;
      } in
        Session c s t → Stays kind cr t.0
  handlers_Session-Stays o api request message id finish update delete gives reads trims updates
        deletes s cr found there session =
      Session-Stays _ (λ mg cr w. asserted-Stays kind _ mg cr w (observe_external-Tame o api.get))
        (λ mg cr w.
          asserted-Stays kind _ mg cr w
            (create_external-Tame api o request message id finish gives reads trims))
        (λ mg cr w. asserted-Stays kind _ mg cr w updates)
        (λ mg cr w. asserted-Stays kind _ mg cr w deletes) s cr found there session
