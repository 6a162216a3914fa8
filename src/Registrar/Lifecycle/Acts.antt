-- ===== src/Registrar/Lifecycle/Acts.antt =====
-- What UpdateState of an object does once VerifyCR accepts it, by the state of its change request
-- (lib/domain.go, lib/host.go, lib/contact.go, lib/apiuser.go, lib/approverset.go).
use go_registrar.Prelude.{
  ℕ, ◌≡◌, ◌⊎◌, inl, inr, refl, ap, ◌∙◌, true, some, arith, Bool-cases, if◌then◌else◌,
}
use go_registrar.Prelude.Try.{throw, ◌>>=◌, bind-ends}
use go_registrar.Registrar.State.{State, is, approved, declined, code-injective}
use go_registrar.Registrar.Model.{ChangeRequest}
use go_registrar.Registrar.Store.{lookup_request}
use go_registrar.Registrar.Revision.{Kind, RevisionRow, World, RevErr, Op, find_change_request}
use go_registrar.Registrar.Revision.Rows.{
  SameObjects, find_change_request-SameObjects, find_change_request-found,
}
use go_registrar.Registrar.Lifecycle.{Prepared, approve_pending, decline_pending, act_on_request}
use go_registrar.Registrar.Lifecycle.Safety.{
  PromotesIn, DeclinesIn, PromotesIn-later, DeclinesIn-later, approve_pending-PromotesIn,
  decline_pending-DeclinesIn,
}

module _ (kind : Kind) (d : Prepared) (p : RevisionRow) (now : ℕ) where
  -- The change request of the pending revision, in the state.
  abbrev pub Requested : State → World → Type 0
  Requested s w =
      (cr : ChangeRequest) × (lookup_request p.cr_id.int64 w.requests ≡ some cr) × (cr.state ≡ s)

  -- The objects are as before, or the one of an approved request is promoted, or that of a declined
  -- one has another state.
  abbrev pub ActsIn : World → World → Type 0
  ActsIn w w' =
      (w'.objects ≡ w.objects)
      ⊎ (Requested approved w × PromotesIn kind d p now w w')
      ⊎ (Requested declined w × DeclinesIn kind d p now w w')

  pub is-eq : (s t : State) → is s t ≡ true → s ≡ t
  is-eq s t h = code-injective s t (ground arith)

  pub ActsIn-later : (w v u : World) → SameObjects w v → ActsIn v u → ActsIn w u
  ActsIn-later w v u same (inl h) = inl (h ∙ same.0)
  ActsIn-later w v u same (inr (inl (req, h))) =
      inr (inl (rw (← same.1) req, PromotesIn-later kind d p now w v u same.0 h))
  ActsIn-later w v u same (inr (inr (req, h))) =
      inr (inr (rw (← same.1) req, DeclinesIn-later kind d p now w v u same.0 h))

  -- The two branches, with the one of an approved request and the one of another state left open.
  module _ {A : Type 0} (promotes other declines : Op A)
      (in_promotes : (w : World) → PromotesIn kind d p now w (promotes w).1)
      (in_declines : (w : World) → DeclinesIn kind d p now w (declines w).1)
      (in_other : (w : World) → (other w).1.objects ≡ w.objects) where
    pub branches-ActsIn :
        (cr : ChangeRequest) (w : World)
        → lookup_request p.cr_id.int64 w.requests ≡ some cr
        → ActsIn w
            ((if is cr.state approved
                then promotes
                else if is cr.state declined
                then declines
                else other)
              w).1
    branches-ActsIn cr w found = elim (Bool-cases (is cr.state approved)) [
      | inl e ↦ inr (inl ((cr, found, is-eq cr.state approved e), rw e (in_promotes w)))
      | inr e ↦ elim (Bool-cases (is cr.state declined)) [
        | inl f ↦ inr (inr ((cr, found, is-eq cr.state declined f), rw (e, f) (in_declines w)))
        | inr f ↦ inl (rw (e, f) (in_other w))
      ]
    ]

  -- The request is found first, and then decides.
  pub found-ActsIn :
      {A : Type 0} (f : ChangeRequest → Op A)
      → ((cr : ChangeRequest) (w : World)
          → lookup_request p.cr_id.int64 w.requests ≡ some cr
          → ActsIn w (f cr w).1)
      → (w : World) → ActsIn w ((find_change_request p.cr_id.int64 >>= f) w).1
  found-ActsIn f acts w =
      let same = find_change_request-SameObjects p.cr_id.int64 w in
      bind-ends (ActsIn w) (find_change_request p.cr_id.int64) f w
        (λ e t q. inl (rw (← ap (λ r. r.1) q) same.0))
        (λ cr t q.
          let kept : SameObjects w t = rw (← ap (λ r. r.1) q) same in
          ActsIn-later w t (f cr t).1 kept (
            acts cr t (rw kept.1 (find_change_request-found p.cr_id.int64 w cr (ap (λ r. r.0) q)))))

  pub act_on_request-ActsIn : (w : World) → ActsIn w (act_on_request kind d p now w).1
  unfolding act_on_request
  act_on_request-ActsIn w =
      found-ActsIn _
        (branches-ActsIn (approve_pending kind d p now) (throw RevErr.unable_to_handle_state)
          (decline_pending kind d p now) (approve_pending-PromotesIn kind d p now)
          (decline_pending-DeclinesIn kind d p now) (λ v. refl))
        w
