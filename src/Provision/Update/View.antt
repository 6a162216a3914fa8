-- ===== src/Provision/Update/View.antt =====
-- What the registry holds of a domain while it carries out the commands of DomainUpdate
-- (provision/main.go), as the update command of RFC 5731 has it: what is added is appended and what
-- is removed is taken out.
use go_registrar.Prelude.{
  ◌≡◌, refl, ap, sym, ◌∙◌, String, Bool, true, false, List, [], ◌∷◌, ◌++◌, str_eq, if◌then◌else◌,
  append_nil,
}
use go_registrar.Epp.Status.{Status, status_eq}
use go_registrar.Epp.Response.{DsData, ds_eq}
use go_registrar.Provision.Diff.{missing_from}
use go_registrar.Provision.Update.{
  Command, add_hosts, remove_hosts, add_ds, remove_ds, add_statuses, remove_statuses, renew, Run,
  send_command, send_if, not_nil,
}

pub record View : Type 0 where
  pub hosts : List String
  pub records : List DsData
  pub statuses : List Status

abbrev pub carry : Command → View → View
carry (add_hosts l) v = record v { hosts = v.hosts ++ l }
carry (remove_hosts l) v = record v { hosts = missing_from str_eq l v.hosts }
carry (add_ds l) v = record v { records = v.records ++ l }
carry (remove_ds l) v = record v { records = missing_from ds_eq l v.records }
carry (add_statuses l) v = record v { statuses = v.statuses ++ l }
carry (remove_statuses l) v = record v { statuses = missing_from status_eq l v.statuses }
carry renew v = v

abbrev carry_accepted : Command → Bool → View → View
carry_accepted c true v = carry c v
carry_accepted c false v = v

-- The registry behind a list of commands, of which the accepted ones are carried out.
abbrev pub view_after : View → List (Command × Bool) → View
view_after v [] = v
view_after v ((c, ok) ∷ rest) = view_after (carry_accepted c ok v) rest

view_after-append :
    (l : List (Command × Bool)) (v : View) (c : Command) (ok : Bool)
    → view_after v (l ++ (c, ok) ∷ []) ≡ carry_accepted c ok (view_after v l)
view_after-append [] v c ok = refl
view_after-append ((b, taken) ∷ l) v c ok = view_after-append l (carry_accepted b taken v) c ok

-- No command is refused, and the registry is now as `w`.
abbrev pub Shows : View → Run → View → Type 0
Shows v r w = (r.faults ≡ []) × (view_after v r.sent ≡ w)

pub send_command-Shows :
    (c : Command) (v w : View) (r : Run) → Shows v r w → Shows v (send_command c r).1 (carry c w)
unfolding send_command
send_command-Shows c v w r (calm, e) =
    rw calm (refl, view_after-append r.sent v c true ∙ ap (carry c) e)

pub send_command-accepted :
    (c : Command) (v w : View) (r : Run) → Shows v r w → (send_command c r).0 ≡ true
unfolding send_command
send_command-accepted c v w r (calm, e) = rw calm refl

pub send_if-Shows :
    (b : Bool) (c : Command) (v w : View) (s : Bool × Run)
    → Shows v s.1 w
    → Shows v (send_if b c s).1 (if b then carry c w else w)
unfolding send_if
send_if-Shows true c v w (changed, r) h = send_command-Shows c v w r h
send_if-Shows false c v w (changed, r) h = h

missing_from_nil {ℓ} : {A : Type ℓ} (eq : A → A → Bool) (l : List A) → missing_from eq [] l ≡ l
unfolding missing_from
missing_from_nil eq [] = refl
missing_from_nil eq (x ∷ l) = ap (λ t. x ∷ t) (missing_from_nil eq l)

-- A command without arguments would change nothing.
pub carry-add_hosts :
    (l : List String) (w : View)
    → (if not_nil l then carry (add_hosts l) w else w) ≡ carry (add_hosts l) w
carry-add_hosts [] w = ap (λ t. record w { hosts = t }) (sym (append_nil w.hosts))
carry-add_hosts (x ∷ l) w = refl

pub carry-remove_hosts :
    (l : List String) (w : View)
    → (if not_nil l then carry (remove_hosts l) w else w) ≡ carry (remove_hosts l) w
carry-remove_hosts [] w = ap (λ t. record w { hosts = t }) (sym (missing_from_nil str_eq w.hosts))
carry-remove_hosts (x ∷ l) w = refl

pub carry-add_ds :
    (l : List DsData) (w : View)
    → (if not_nil l then carry (add_ds l) w else w) ≡ carry (add_ds l) w
carry-add_ds [] w = ap (λ t. record w { records = t }) (sym (append_nil w.records))
carry-add_ds (x ∷ l) w = refl

pub carry-remove_ds :
    (l : List DsData) (w : View)
    → (if not_nil l then carry (remove_ds l) w else w) ≡ carry (remove_ds l) w
carry-remove_ds [] w = ap (λ t. record w { records = t }) (sym (missing_from_nil ds_eq w.records))
carry-remove_ds (x ∷ l) w = refl

pub carry-add_statuses :
    (l : List Status) (w : View)
    → (if not_nil l then carry (add_statuses l) w else w) ≡ carry (add_statuses l) w
carry-add_statuses [] w = ap (λ t. record w { statuses = t }) (sym (append_nil w.statuses))
carry-add_statuses (x ∷ l) w = refl

pub carry-remove_statuses :
    (l : List Status) (w : View)
    → (if not_nil l then carry (remove_statuses l) w else w) ≡ carry (remove_statuses l) w
carry-remove_statuses [] w =
    ap (λ t. record w { statuses = t }) (sym (missing_from_nil status_eq w.statuses))
carry-remove_statuses (x ∷ l) w = refl
