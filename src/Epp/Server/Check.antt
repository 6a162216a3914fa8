-- ===== src/Epp/Server/Check.antt =====
-- The answers to check commands (epp/server/server.go).
use go_registrar.Prelude.{
  ◌≡◌, ◌↔◌, refl, String, Bool, true, false, not, List, [], ◌∷◌, map, Any, inl, inr, arith, any,
  str_eq, str_eq_iff, Bool-cases,
}
use go_registrar.Epp.Server.{
  EppServer, CheckKind, check_contact, check_host, check_domain, ServerDomain, is_found,
  availabilities,
}

-- The names of a kind that the server knows.
abbrev pub known_names : EppServer → CheckKind → List String
known_names srv check_contact = srv.contacts
known_names srv check_host = srv.hosts
known_names srv check_domain = map (λ d. d.domain_name) srv.domains

abbrev pub IsIn : String → List String → Type 0
IsIn k l = Any (λ n. n ≡ k) l

any-forward : (k : String) (l : List String) → any (λ n. str_eq n k) l ≡ true → IsIn k l
any-forward k [] h = cc
any-forward k (n ∷ l) h = elim (Bool-cases (str_eq n k)) [
  | inl e ↦ inl ((str_eq_iff n k).0 e)
  | inr e ↦ inr (any-forward k l (rw e at h))
]

any-backward : (k : String) (l : List String) → IsIn k l → any (λ n. str_eq n k) l ≡ true
any-backward k [] h = absurd h
any-backward k (n ∷ l) (inl e) = ground (arith, (str_eq_iff n k).1 e)
any-backward k (n ∷ l) (inr h) = ground (arith, any-backward k l h)

any-IsIn : (k : String) (l : List String) → (any (λ n. str_eq n k) l ≡ true) ↔ IsIn k l
any-IsIn k l = (any-forward k l, any-backward k l)

any-domains :
    (k : String) (l : List ServerDomain)
    → any (λ d. str_eq d.domain_name k) l ≡ any (λ n. str_eq n k) (map (λ d. d.domain_name) l)
any-domains k [] = refl
any-domains k (d ∷ l) = ground (arith, any-domains k l)

is_found-IsIn :
    (srv : EppServer) (kind : CheckKind) (k : String)
    → (is_found srv kind k ≡ true) ↔ IsIn k (known_names srv kind)
unfolding is_found
is_found-IsIn srv check_contact k = any-IsIn k srv.contacts
is_found-IsIn srv check_host k = any-IsIn k srv.hosts
is_found-IsIn srv check_domain k =
    rw (any-domains k srv.domains) (any-IsIn k (map (λ d. d.domain_name) srv.domains))

-- The answer to each name in turn: it is available exactly when the server does not know it.
abbrev pub Answers : List String → List String → List (String × Bool) → Type 0
Answers known [] [] = Unit
Answers known (k ∷ names) ((n, free) ∷ rest) =
    (n ≡ k) × ((free ≡ false) ↔ IsIn k known) × Answers known names rest
Answers known _ _ = ⊥

not-false : (b : Bool) → (not b ≡ false) ↔ (b ≡ true)
not-false b = ground arith

-- The answer to a check has the names of the check in their order, each available exactly when the
-- server knows no object of that name.
pub availabilities-Answers :
    (srv : EppServer) (kind : CheckKind) (names : List String)
    → Answers (known_names srv kind) names (availabilities srv kind names)
unfolding availabilities
availabilities-Answers srv kind [] = tt
availabilities-Answers srv kind (k ∷ names) =
    let f = is_found-IsIn srv kind k in
    let n = not-false (is_found srv kind k) in
    (refl, ((λ h. f.0 (n.0 h)), λ h. n.1 (f.1 h)), availabilities-Answers srv kind names)
