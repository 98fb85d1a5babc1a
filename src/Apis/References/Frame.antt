-- ===== src/Apis/References/Frame.antt =====
-- What resolving references leaves alone.
use provider_dip.Base.{Text, Bool, false, some, [], ◌≡◌, ◌≢◌, ap, sym, ◌∙◌, inr}
use provider_dip.Go.{ok, wrapping, continue}
use provider_dip.Apis.References.{
  Request, Resolver, Referring, Field, request, assign, resolve_references,
}

-- The documented behaviour of crossplane-runtime: a value that is there is kept, with its reference,
-- and nothing is looked up, unless the policy of the selector or the reference is to resolve always;
-- and a text that is not empty is the same as a pointer to it.
pub record KeepsValues {W Ref Sel : Type 0} (r : Resolver W Ref Sel)
    (resolves_always : Request Ref Sel → Bool) : Type 0 where
  pub kept :
      (req : Request Ref Sel) (w : W)
      → resolves_always req ≡ false
      → req.current_value ≢ []
      → r.resolve req w ≡ (
        inr (record { resolved_value = req.current_value; resolved_reference = req.reference }),
        w,
      )
  pub from_some : (value : Text) → r.from_ptr_value (some value) ≡ value
  pub to_some : (value : Text) → value ≢ [] → r.to_ptr_value value ≡ some value

module _ {P S W Ref Sel : Type 0} (r : Resolver W Ref Sel) (field : Field P) where
  -- If the resolver of crossplane-runtime keeps a value that is there, without a look-up, where the
  -- policy of the selector and the reference is not to resolve always, then without such a policy
  -- an id that the spec gives is not changed, nor is anything else of the resource, and resolving
  -- succeeds.
  pub resolve_references_given :
      (mg : Referring P S Ref Sel) (w : W) (id : Text) {resolves_always : Request Ref Sel → Bool}
      → KeepsValues r resolves_always
      → resolves_always (request r field mg) ≡ false
      → field.value mg.managed.for_provider ≡ some id
      → id ≢ []
      → resolve_references r field (mg, w) ≡ (ok tt, (mg, w))
  unfolding resolve_references
  resolve_references_given mg w id keeps cached given there =
      let fp = mg.managed.for_provider in
      let read = ap r.from_ptr_value given ∙ keeps.from_some id in
      let answered = keeps.kept (request r field mg) w cached (λ e. there (sym read ∙ e)) in
      let back = ap r.to_ptr_value read ∙ keeps.to_some id there ∙ sym given in
      ap (λ q. continue (wrapping field.path q.0 (mg, q.1)) (assign r field)) answered
      ∙ ap (λ p. (ok tt, (record mg { managed = record mg.managed { for_provider = p } }, w)))
          (ap (λ v. field.set_value v fp) back ∙ field.set-value fp)
