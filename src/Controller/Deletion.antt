-- ===== src/Controller/Deletion.antt =====
-- `Delete` and the observation after it, and what is asked of the remote service for it.
use provider_dip.Base.{Text, String, true, false, none, some, ◌≡◌, ap, sym, ◌∙◌, arith}
use provider_dip.Base.{is_empty, inl, inr, Bool-cases, subst}
use provider_dip.Go.{Error, Outcome, ok}
use provider_dip.Managed.{Managed, deleting}
use provider_dip.Util.{is_valid_uuid}
use provider_dip.Controller.{
  RemoteApi, Observer, observe_external, delete_external, absent, is_gone,
}
use provider_dip.Controller.Observe.{observe_unnamed, observe_gone, not_empty}
use provider_dip.Controller.Frame.{delete_external-deleting}
use provider_dip.Util.Uuid.{is_valid_uuid-ne-nil}

-- After a deletion without error, a `GET` of the id fails with 400 or 404.
pub record Forgets {W New Old R : Type 0} (api : RemoteApi W New Old R) (id : Old → Text)
    : Type 0 where
  pub forgotten :
      (body : Old) (w : W)
      → (api.delete body w).0.error ≡ none
      → let reply = (api.get (id body) (api.delete body w).1).0 in
        ((e : Error) × (reply.error ≡ some e)) × (is_gone reply.response ≡ true)

module _ {P S W New Old R : Type 0} (o : Observer P S R) (api : RemoteApi W New Old R) where
  -- A deletion that returned without error called the service, if the name is not empty.
  delete_external-sent :
      (by_id : Text → Old) (message : String) (cr : Managed P S) (w : W)
      → is_empty cr.external_name ≡ false
      → let result = delete_external {S = S} by_id api.delete message (cr, w) in
        result.0 ≡ ok tt
        → ((api.delete (by_id cr.external_name) w).0.error ≡ none)
          × (result.1.1 ≡ (api.delete (by_id cr.external_name) w).1)
  unfolding delete_external
  delete_external-sent by_id message cr w named h = ground arith

  -- If `Delete` succeeds, the next `Observe` reports the resource absent, for every service that
  -- forgets what it deletes, and whatever the external name is: empty, no UUID, or a UUID.
  pub delete-observe :
      (by_id : Text → Old) (id : Old → Text) (message : String) (cr : Managed P S) (w : W)
      → Forgets api id
      → ((name : Text) → id (by_id name) ≡ name)
      → let result = delete_external {S = S} by_id api.delete message (cr, w) in
        result.0 ≡ ok tt → (observe_external o api.get result.1).0 ≡ ok absent
  delete-observe by_id id message cr w service addressed h =
      subst (λ c. (observe_external o api.get (c, result.1.1)).0 ≡ ok absent)
        (sym (delete_external-deleting by_id api.delete message cr w))
        (elim (Bool-cases (is_valid_uuid cr.external_name)) [
          | inr unnamed ↦ ap (λ q. q.0) (observe_unnamed o api.get gone result.1.1 unnamed)
          | inl named ↦
              let (no_error, world) =
                delete_external-sent by_id message cr w
                  (not_empty cr.external_name (is_valid_uuid-ne-nil cr.external_name named)) h in
              let ((e, failed), missing) = service.forgotten (by_id cr.external_name) w no_error in
              let same : (api.get cr.external_name result.1.1).0
                  ≡ (api.get (id (by_id cr.external_name))
                      (api.delete (by_id cr.external_name) w).1).0 =
                λ i. (api.get (sym (addressed cr.external_name) i) (world i)).0 in
              observe_gone o api.get gone result.1.1 e named (ap (λ q. q.error) same ∙ failed)
                (ap (λ q. is_gone q.response) same ∙ missing)
        ])
    where
      result : Outcome (Unit {0}) × (Managed P S × W)
      result = delete_external by_id api.delete message (cr, w)

      gone : Managed P S
      gone = record cr { ready = some deleting }
