-- ===== src/Controller/Frame.antt =====
-- The fields of a resource, before and after the handlers of `Controller`.
use provider_dip.Base.{Text, String, some, ◌≡◌, arith}
use provider_dip.Go.{Outcome, ok, fail, panic}
use provider_dip.Managed.{Managed, creating, deleting}
use provider_dip.Controller.{
  Reply, Handler, Observer, observe_external, create_external, update_external,
}
use provider_dip.Controller.{delete_external}

-- A part of a handler that only looks at the resource.
abbrev pub ReadsOnly : {P S W A : Type 0} → Handler P S W A → Type 0
ReadsOnly {P} {S} {W} request = (cr : Managed P S) (w : W) → (request (cr, w)).1.0 ≡ cr

abbrev pub Keeps : {P S : Type 0} → Managed P S → Managed P S → Type 0
Keeps cr cr' =
    (cr'.for_provider ≡ cr.for_provider)
    × (cr'.namespace ≡ cr.namespace)
    × (cr'.provider_config_ref ≡ cr.provider_config_ref)

-- The resource after `Create`: it is being created, and if the call succeeded with `r` its external
-- name is that of `r`; nothing else changes, on success, on errors and on panics.
abbrev pub AfterCreate :
    {P S R : Type 0} → (R → Text) → Managed P S → Outcome R → Managed P S → Type 0
AfterCreate id cr (ok r) cr' = cr' ≡ record cr { external_name = id r; ready = some creating }
AfterCreate id cr (fail e) cr' = cr' ≡ record cr { ready = some creating }
AfterCreate id cr panic cr' = cr' ≡ record cr { ready = some creating }

module _ {P S R W : Type 0} where
  -- An observation, whatever its outcome, keeps the spec, the namespace, the provider configuration
  -- and the external name of the resource.
  pub observe-Keeps :
      (o : Observer P S R) (get : Text → W → Reply R × W) (cr : Managed P S) (w : W)
      → let cr' = (observe_external o get (cr, w)).1.0 in
        Keeps cr cr' × (cr'.external_name ≡ cr.external_name)
  unfolding observe_external
  observe-Keeps o get cr w = ground arith

  -- With a request that only reads the resource, `Create` marks it as being created; the external name
  -- becomes the id of the created value if it succeeds, and nothing else changes, on errors and
  -- panics either.
  pub create_external-AfterCreate :
      {New : Type 0} (request : Handler P S W New) (create : New → W → Reply R × W)
      (message : String) (id : R → Text) (cr : Managed P S) (w : W)
      → ReadsOnly request
      → let result = create_external request create message id (cr, w) in
        AfterCreate id cr result.0 result.1.0
  unfolding create_external
  create_external-AfterCreate request create message id cr w reads =
      ground (arith, reads (record cr { ready = some creating }) w)

  pub update_external-same :
      {Old : Type 0} (request : Handler P S W Old) (update : Old → W → Reply R × W)
      (message : String) (cr : Managed P S) (w : W)
      → ReadsOnly request
      → (update_external request update message (cr, w)).1.0 ≡ cr
  unfolding update_external
  update_external-same request update message cr w reads = ground (arith, reads cr w)

  pub delete_external-deleting :
      {Old : Type 0} (by_id : Text → Old) (delete : Old → W → Reply R × W) (message : String)
      (cr : Managed P S) (w : W)
      → (delete_external by_id delete message (cr, w)).1.0 ≡ record cr { ready = some deleting }
  unfolding delete_external
  delete_external-deleting by_id delete message cr w = ground arith
