-- ===== src/Evidence/Assembler/Laws.antt =====
-- What the assembled evidence guarantees.
use tpsr_v.Prelude.{
  ◌≡◌, refl, ℕ, Bool, true, false, some, List, [], ◌∷◌, filter, arith, In, here, filter-In,
}
use tpsr_v.ContextRisk.Evaluate.{normalized, normalized-some}
use tpsr_v.ContextRisk.Evaluate.Outcome.{IsReliable}
use tpsr_v.Evidence.{ContextAssertion, PolicyException, TrustPolicy}
use tpsr_v.Evidence.Context
use tpsr_v.Evidence.Vex
use tpsr_v.Evidence.Exceptions.{IsGoverned, in_force-IsGoverned}
use tpsr_v.Evidence.Assembler.{
  Bundle, active_vex, vulnerabilities, selection, active_exceptions, exception_active, assemble,
}

in_force :
    (now : ℕ) (required : Bool) (listed : List ContextAssertion)
    → required ≡ true
    → (Context.select now required listed).conflict ≡ false
    → (Context.select now required listed).invalid_context ≡ false
    → Context.missing_context required (Context.select now required listed) ≡ false
    → (a : ContextAssertion) × ((Context.select now required listed).active_context ≡ some a)
      × Context.IsInForce now a
in_force now true listed h c v m = Context.select_required now listed c v m
in_force now false listed h c v m = cc

module _ (policy : TrustPolicy) (now : ℕ) (b : Bundle) where
  pub active_exceptions-IsGoverned :
      (e : PolicyException)
      → In e (active_exceptions policy now b)
      → In e b.exceptions × IsGoverned b.document (vulnerabilities b) now e
  unfolding active_exceptions
  active_exceptions-IsGoverned e m =
      let (i, h) = filter-In _ b.exceptions m in
      (i, in_force-IsGoverned b.document _ (vulnerabilities b) policy now e h)

  -- Where exceptions are trusted, one of them is governed.
  pub assemble-exception_trusted :
      (assemble policy now b).exception_trusted ≡ true
      → (e : PolicyException) × In e b.exceptions × IsGoverned b.document (vulnerabilities b) now e
  unfolding assemble exception_active
  assemble-exception_trusted h = go (active_exceptions policy now b) refl
    where
      go :
          (es : List PolicyException)
          → active_exceptions policy now b ≡ es
          → (e : PolicyException) × In e b.exceptions
            × IsGoverned b.document (vulnerabilities b) now e
      go [] q = ground arith
      go (e ∷ es) q = let (i, g) = active_exceptions-IsGoverned e (rw q (here refl)) in (e, i, g)

  pub normalized-assemble : normalized (assemble policy now b) ≡ vulnerabilities b
  unfolding assemble
  normalized-assemble = normalized-some _ _ refl

  -- A reliable context rests on at most one VEX statement and, where a context is required, on an
  -- assertion in force.
  pub assemble-IsReliable :
      IsReliable (assemble policy now b)
      → (Vex.is_several (active_vex b) ≡ false)
        × (Context.context_required policy ≡ true
            → (a : ContextAssertion) × ((selection policy now b).active_context ≡ some a)
              × Context.IsInForce now a)
  unfolding assemble selection
  assemble-IsReliable r = (
    ground arith,
    λ required.
        in_force now (Context.context_required policy) b.assertions required (ground arith)
          (ground arith) (ground arith),
  )

  pub assemble-conflict :
      Vex.is_several (filter Vex.is_active b.statements) ≡ true
      → (assemble policy now b).conflict ≡ true
  unfolding assemble
  assemble-conflict h = ground arith
