-- ===== src/Registrar/Lifecycle/Reasons.antt =====
-- Why UpdateState of an API user or of an approver set (lib/apiuser.go, lib/approverset.go) writes
-- its row.
use go_registrar.Prelude.{ℕ, ◌≡◌, ◌⊎◌, inl, inr, ◌∙◌, true, false, some}
use go_registrar.Registrar.Revision.{Kind, ObjectRow, RevisionRow, World, replace_object}
use go_registrar.Registrar.Revision.Rows.{SameObjects}
use go_registrar.Registrar.Verify.{Checked}
use go_registrar.Registrar.State.{State}
use go_registrar.Registrar.Lifecycle.Rows.{GoesBackTo}
use go_registrar.Registrar.Lifecycle.{Prepared, is_pending}
use go_registrar.Registrar.Lifecycle.Acts.{ActsIn, ActsIn-later}

module _ (kind : Kind) (verify_cr : Prepared → World → Checked × World) (now : ℕ)
    (d : Prepared) where
  abbrev pub Unasked : Type 0
  Unasked = (p : RevisionRow) → d.pending_revision ≡ some p → p.cr_id.valid ≡ false

  -- The object is pending and no pending revision has a change request: it goes back.
  abbrev pub GoesBack : World → World → Type 0
  GoesBack w w' =
      (is_pending kind d.row.object_state ≡ true)
      × Unasked
      × ((o : ObjectRow) × (s : State) × GoesBackTo kind d s
          × (w'.objects ≡ replace_object (record o { object_state = s }) w.objects))

  -- VerifyCR accepted it, and the request is approved or is declined.
  abbrev pub Decided : World → World → Type 0
  Decided w w' =
      (p : RevisionRow) × (v : World) × (d.pending_revision ≡ some p)
      × SameObjects w v
      × ((verify_cr d v).0.0 ≡ true)
      × ActsIn kind d p now w w'

  abbrev pub HasReason : World → World → Type 0
  HasReason w w' = (w'.objects ≡ w.objects) ⊎ GoesBack w w' ⊎ Decided w w'

  pub HasReason-at : (w u v : World) → u ≡ v → HasReason w v → HasReason w u
  HasReason-at w u v e h = rw e h

  pub HasReason-later : (w v u : World) → SameObjects w v → HasReason v u → HasReason w u
  HasReason-later w v u same (inl h) = inl (h ∙ same.0)
  HasReason-later w v u same (inr (inl (pending, unasked, (o, s, g, h)))) =
      inr (inl (pending, unasked, (o, s, g, rw (← same.0) h)))
  HasReason-later w v u same (inr (inr (p, x, e, kept, ok, h))) = inr (
      inr (p, x, e, (kept.0 ∙ same.0, kept.1 ∙ same.1), ok, ActsIn-later kind d p now w v u same h))

  pub decided :
      (p : RevisionRow) (w v u : World)
      → d.pending_revision ≡ some p
      → SameObjects w v
      → (verify_cr d v).0.0 ≡ true
      → SameObjects w (verify_cr d v).1
      → ActsIn kind d p now (verify_cr d v).1 u
      → HasReason w u
  decided p w v u e kept ok same h =
      inr (inr (p, v, e, kept, ok, ActsIn-later kind d p now w (verify_cr d v).1 u same h))
