-- ===== src/Controller/Secrets/Errors.antt =====
-- What happens when one of two secrets cannot be read.
use provider_dip.Base.{Text, String, some, ◌≡◌, ◌⊎◌, ◌∙◌, inl, inr}
use provider_dip.Go.{Error, ok, fail, wrap, ◌>>=◌}
use provider_dip.Managed.{Managed, creating}
use provider_dip.Kube.{KubeApi, SecretKeySelector}
use provider_dip.Apis.Object.{Object, Kind}
use provider_dip.Controller.{Handler, Reply, asserted, create_external}
use provider_dip.Controller.Objects.{asserted-object}
use provider_dip.Controller.Secrets.{get_secret_value, two_secrets_request}

module _ {W : Type 0} (kube : KubeApi W Object) (namespace : Text) where
  -- The first secret cannot be read, or the second after the first; `err` is what is reported then,
  -- and `end` the world after the attempt.
  abbrev pub Unreadable :
      SecretKeySelector → String → SecretKeySelector → String → W → Error → W → Type 0
  Unreadable first first_message second second_message w err end =
      let one = get_secret_value kube namespace first w in
      let two = get_secret_value kube namespace second one.1 in
      ((e : Error) × (one.0 ≡ fail e) × (err ≡ wrap e first_message) × (end ≡ one.1))
      ⊎ ((a : Text) × (e : Error) × (one.0 ≡ ok a)
          × (two.0 ≡ fail e)
          × (err ≡ wrap e second_message)
          × (end ≡ two.1))

  module _ {P S Body : Type 0} (first : P → SecretKeySelector) (first_message : String)
      (second : P → SecretKeySelector) (second_message : String)
      (build : Managed P S → Text → Text → Body) where
    abbrev request : Handler P S W Body
    request = two_secrets_request kube namespace first first_message second second_message build

    request_fails :
        (cr : Managed P S) (w : W) (err : Error) (end : W)
        → Unreadable
            (first cr.for_provider)
            first_message
            (second cr.for_provider)
            second_message
            w
            err
            end
        → request (cr, w) ≡ (fail err, (cr, end))
    unfolding two_secrets_request
    request_fails cr w err end (inl (e, failed, reported, after)) = rw (failed, reported, after)
    request_fails cr w err end (inr (a, e, read, failed, reported, after)) =
        rw (read, failed, reported, after)

    -- Then a `Create` reports the error, and has called nothing else.
    pub two_secrets_create_fails :
        {R A : Type 0} (kind : Kind P S) (create : Body → W → Reply R × W) (message : String)
        (id : R → Text) (finish : R → Handler P S W A) (cr : Managed P S) (w : W) (err : Error)
        (end : W)
        → Unreadable
            (first cr.for_provider)
            first_message
            (second cr.for_provider)
            second_message
            w
            err
            end
        → asserted kind (create_external request create message id >>= finish) (kind.object cr, w)
          ≡ (fail err, (kind.object (record cr { ready = some creating }), end))
    unfolding create_external
    two_secrets_create_fails kind create message id finish cr w err end unreadable =
        let marked = record cr { ready = some creating } in
        asserted-object kind (create_external request create message id >>= finish) cr w
        ∙ rw (request_fails marked w err end unreadable)
