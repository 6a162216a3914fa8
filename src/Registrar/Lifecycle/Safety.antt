-- ===== src/Registrar/Lifecycle/Safety.antt =====
-- UpdateState of a domain, a host or a contact (lib/domain.go, lib/host.go, lib/contact.go) writes
-- the object only for a reason, whichever operations fail.
use go_registrar.Prelude.{
  ℕ, ◌≡◌, ◌⊎◌, inl, inr, refl, ap, ◌∙◌, true, Option, none, some, arith, Bool-cases,
}
use go_registrar.Prelude.Try.{Result, failed, done, ◌>>=◌, pure, try_next, bind-ends}
use go_registrar.Registrar.State.{State}
use go_registrar.Registrar.Revision.{
  Kind, ObjectRow, RevisionRow, World, RevErr, Op, lookup_object, lookup_revision, replace_object,
  find_object, find_revision, save_object,
}
use go_registrar.Registrar.Revision.Rows.{
  SameObjects, find_object-SameObjects, find_revision-SameObjects, find_object-found,
  find_revision-found, find_revision-revisions, save_object-revisions,
}
use go_registrar.Registrar.Revision.Reread.{
  promote_of, decline_of, promote_of-SameObjects, supersed_of-SameObjects, decline_of-SameObjects,
}
use go_registrar.Registrar.Lifecycle.{
  Prepared, is_target, promoted_object, supersed_current, save_promoted, promote_pending,
  approve_pending, declined_state, decline_pending, state_of_revision, state_without_revision,
}
use go_registrar.Registrar.Lifecycle.Rows.{
  IsPromotedRow, promoted_object-IsPromotedRow, StateIn, state_of_revision-FromRevision,
  state_without_revision-WithoutRevision,
}

pub save_object-objects :
    (o : ObjectRow) (w : World)
    → ((save_object o w).1.objects ≡ w.objects)
      ⊎ ((save_object o w).1.objects ≡ replace_object o w.objects)
unfolding save_object
save_object-objects o w = ground arith

module _ (kind : Kind) (d : Prepared) (p : RevisionRow) (now : ℕ) where
  -- The object is as before, or it is promoted to a state that the type may have.
  abbrev pub PromotesIn : World → World → Type 0
  PromotesIn w w' =
      (w'.objects ≡ w.objects)
      ⊎ ((o : ObjectRow) × (r : ObjectRow) × (lookup_object d.row.object_id w.objects ≡ some o)
          × (is_target kind p.desired_state ≡ true)
          × IsPromotedRow kind o p now r
          × (w'.objects ≡ replace_object r w.objects))

  -- The object is as before, or its row has the state of a declined object and is the same else.
  abbrev pub DeclinesIn : World → World → Type 0
  DeclinesIn w w' =
      (w'.objects ≡ w.objects)
      ⊎ ((o : ObjectRow) × (s : State) × (lookup_object d.row.object_id w.objects ≡ some o)
          × StateIn kind d w'.revisions s
          × (w'.objects ≡ replace_object (record o { object_state = s }) w.objects))

  save_promoted-objects :
      (o : ObjectRow) (w : World)
      → lookup_object d.row.object_id w.objects ≡ some o
      → PromotesIn w (save_promoted kind p now o w).1
  unfolding save_promoted
  save_promoted-objects o w found = elim (Bool-cases (is_target kind p.desired_state)) [
    | inl e ↦ elim (save_object-objects (promoted_object kind o p now) w) [
      | inl h ↦ inl (rw e h)
      | inr h ↦ inr (
        o,
        promoted_object kind o p now,
        found,
        e,
        promoted_object-IsPromotedRow kind o p now,
        rw e h,
      )
    ]
    | inr e ↦ inl (rw e refl)
  ]

  supersed_current-SameObjects :
      (c : Option RevisionRow) (w : World) → SameObjects w (supersed_current kind d c now w).1
  unfolding supersed_current
  supersed_current-SameObjects none w = (refl, refl)
  supersed_current-SameObjects (some c) w = elim (Bool-cases d.row.current_revision_id.valid) [
    | inl e ↦ rw e (supersed_of-SameObjects kind c now w)
    | inr e ↦ rw e (refl, refl)
  ]

  module _ (Change : World → World → Type 0)
      (later : (w v u : World) → v.objects ≡ w.objects → Change v u → Change w u)
      (idle : (w v : World) → v.objects ≡ w.objects → Change w v) where
    -- A part that leaves the objects alone, and then a part that changes them.
    kept-then :
        {A B : Type 0} (m : Op A) (f : A → Op B) (w : World)
        → (m w).1.objects ≡ w.objects
        → ((a : A) (t : World) → m w ≡ (done a, t) → Change t (f a t).1)
        → Change w ((m >>= f) w).1
    kept-then m f w same next =
        bind-ends (Change w) m f w (λ e t q. idle w t (rw (← ap (λ r. r.1) q) same))
          (λ a t q. later w t (f a t).1 (rw (← ap (λ r. r.1) q) same) (next a t q))

  -- The steps before a save do not touch the objects.
  pub PromotesIn-later : (w v u : World) → v.objects ≡ w.objects → PromotesIn v u → PromotesIn w u
  PromotesIn-later w v u e (inl h) = inl (h ∙ e)
  PromotesIn-later w v u e (inr (o, r, f, t, g, h)) = inr (o, r, rw (← e) f, t, g, rw (← e) h)

  pub DeclinesIn-later : (w v u : World) → v.objects ≡ w.objects → DeclinesIn v u → DeclinesIn w u
  DeclinesIn-later w v u e (inl h) = inl (h ∙ e)
  DeclinesIn-later w v u e (inr (o, s, f, g, h)) = inr (o, s, rw (← e) f, g, rw (← e) h)

  PromotesIn-idle : (w v : World) → v.objects ≡ w.objects → PromotesIn w v
  PromotesIn-idle w v e = inl e

  DeclinesIn-idle : (w v : World) → v.objects ≡ w.objects → DeclinesIn w v
  DeclinesIn-idle w v e = inl e

  -- And the steps behind it do not touch them either.
  PromotesIn-then : (w v u : World) → PromotesIn w v → u.objects ≡ v.objects → PromotesIn w u
  PromotesIn-then w v u (inl h) e = inl (e ∙ h)
  PromotesIn-then w v u (inr (o, r, f, t, g, h)) e = inr (o, r, f, t, g, e ∙ h)

  abbrev and_reread : Op (Unit {0})
  and_reread = do r ← find_revision p.revision_id; pure tt

  abbrev and_find : Op (Unit {0})
  and_find = do o ← find_object d.row.object_id; save_promoted kind p now o

  abbrev and_supersed : Op (Unit {0})
  and_supersed = do u ← supersed_current kind d d.current_revision now; and_find

  reread-objects : (w : World) → (and_reread w).1.objects ≡ w.objects
  reread-objects w = ground (arith, find_revision-SameObjects p.revision_id w)

  found_after :
      (u : World) (o : ObjectRow) (v : World)
      → find_object d.row.object_id u ≡ (done o, v)
      → lookup_object d.row.object_id v.objects ≡ some o
  found_after u o v q =
      let same : v.objects ≡ u.objects =
        rw (← ap (λ r. r.1) q) (find_object-SameObjects d.row.object_id u).0 in
      rw same (find_object-found d.row.object_id u o (ap (λ r. r.0) q))

  pub promote_pending-PromotesIn : (w : World) → PromotesIn w (promote_pending kind d p now w).1
  unfolding promote_pending
  promote_pending-PromotesIn w =
      kept-then PromotesIn PromotesIn-later PromotesIn-idle (promote_of kind p now)
        (λ u. and_supersed) w (promote_of-SameObjects kind p now w).0
        (λ a t q.
          kept-then PromotesIn PromotesIn-later PromotesIn-idle
            (supersed_current kind d d.current_revision now) (λ u. and_find) t
            (supersed_current-SameObjects d.current_revision t).0
            (λ b u r.
              kept-then PromotesIn PromotesIn-later PromotesIn-idle (find_object d.row.object_id)
                (save_promoted kind p now) u (find_object-SameObjects d.row.object_id u).0
                (λ o v s. save_promoted-objects o v (found_after u o v s))))

  pub approve_pending-PromotesIn : (w : World) → PromotesIn w (approve_pending kind d p now w).1
  unfolding approve_pending
  approve_pending-PromotesIn w =
      bind-ends (PromotesIn w) (promote_pending kind d p now) (λ u. and_reread) w
        (λ e t q. rw (← ap (λ r. r.1) q) (promote_pending-PromotesIn w))
        (λ a t q.
          PromotesIn-then w t (and_reread t).1
            (rw (← ap (λ r. r.1) q) (promote_pending-PromotesIn w)) (reread-objects t))

  declined_state-objects : (w : World) → (declined_state kind d w).1.objects ≡ w.objects
  unfolding declined_state
  declined_state-objects w =
      ground (arith, find_revision-SameObjects d.row.current_revision_id.int64 w)

  abbrev Reads : Result RevErr RevisionRow × World → Type 0
  Reads r =
      (c : RevisionRow)
      → r.0 ≡ done c
      → lookup_revision d.row.current_revision_id.int64 r.1.revisions ≡ some c

  read_state-StateIn :
      (r : Result RevErr RevisionRow × World) (s : State) (v : World)
      → d.row.current_revision_id.valid ≡ true
      → Reads r
      → try_next (λ c. pure (state_of_revision c.revision_state)) r ≡ (done s, v)
      → StateIn kind d v.revisions s
  read_state-StateIn (failed e, t) s v valid reads q = cc
  read_state-StateIn (done c, t) s v valid reads q =
      let same : t ≡ v = ap (λ r. r.1) q in
      let state : state_of_revision c.revision_state ≡ s = cc q in
      rw (← same, ← state) (inr (c, valid, reads c refl, state_of_revision-FromRevision c))

  find_revision-Reads : (w : World) → Reads (find_revision d.row.current_revision_id.int64 w)
  find_revision-Reads w c q =
      rw (find_revision-revisions d.row.current_revision_id.int64 w)
        (find_revision-found d.row.current_revision_id.int64 w c q)

  declined_state-StateIn :
      (w : World) (s : State) (v : World)
      → declined_state kind d w ≡ (done s, v)
      → StateIn kind d v.revisions s
  unfolding declined_state
  declined_state-StateIn w s v q = elim (Bool-cases d.row.current_revision_id.valid) [
    | inl e ↦
        read_state-StateIn (find_revision d.row.current_revision_id.int64 w) s v e
          (find_revision-Reads w) (rw e at q)
    | inr e ↦
        let state : state_without_revision kind d.row.object_state ≡ s = cc (rw e at q) in
        rw (← state) (inl (e, state_without_revision-WithoutRevision kind d.row.object_state))
  ]

  abbrev and_write : ObjectRow → Op (Unit {0})
  and_write o = do s ← declined_state kind d; save_object (record o { object_state = s })

  abbrev and_read : Op (Unit {0})
  and_read = do o ← find_object d.row.object_id; and_write o

  write-DeclinesIn :
      (o : ObjectRow) (s : State) (w : World)
      → lookup_object d.row.object_id w.objects ≡ some o
      → StateIn kind d w.revisions s
      → DeclinesIn w (save_object (record o { object_state = s }) w).1
  write-DeclinesIn o s w found state =
      let r = record o { object_state = s } in
      elim (save_object-objects r w) [
        | inl h ↦ inl h
        | inr h ↦ inr (o, s, found, rw (save_object-revisions r w) state, h)
      ]

  pub decline_pending-DeclinesIn : (w : World) → DeclinesIn w (decline_pending kind d p now w).1
  unfolding decline_pending
  decline_pending-DeclinesIn w =
      kept-then DeclinesIn DeclinesIn-later DeclinesIn-idle (decline_of kind p now) (λ u. and_read)
        w (decline_of-SameObjects kind p now w).0
        (λ a t q.
          kept-then DeclinesIn DeclinesIn-later DeclinesIn-idle (find_object d.row.object_id)
            and_write t (find_object-SameObjects d.row.object_id t).0
            (λ o u r.
              kept-then DeclinesIn DeclinesIn-later DeclinesIn-idle (declined_state kind d) _ u
                (declined_state-objects u)
                (λ s v q2.
                  write-DeclinesIn o s v
                    (rw (← ap (λ x. x.1.objects) q2, declined_state-objects u)
                      (found_after t o u r))
                    (declined_state-StateIn u s v q2))))
