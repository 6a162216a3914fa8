-- ===== src/Epp/Status.antt =====
-- epp/epp.go: the status flags of an object at the registry. The source holds them as texts; any
-- other text is `other_status`.
use go_registrar.Prelude.{ℕ, ◌+◌, ◌≡◌, Bool, true, List, arith, ◌==◌, any}

pub data Status : Type 0 where
  server_hold client_hold client_update_prohibited client_delete_prohibited : Status
  client_renew_prohibited client_transfer_prohibited server_update_prohibited : Status
  server_delete_prohibited server_renew_prohibited server_transfer_prohibited status_ok : Status
  linked pending_create pending_delete pending_transfer pending_update pending_renew : Status
  other_status : ℕ → Status

abbrev pub status_code : Status → ℕ
status_code server_hold = 0
status_code client_hold = 1
status_code client_update_prohibited = 2
status_code client_delete_prohibited = 3
status_code client_renew_prohibited = 4
status_code client_transfer_prohibited = 5
status_code server_update_prohibited = 6
status_code server_delete_prohibited = 7
status_code server_renew_prohibited = 8
status_code server_transfer_prohibited = 9
status_code status_ok = 10
status_code linked = 11
status_code pending_create = 12
status_code pending_delete = 13
status_code pending_transfer = 14
status_code pending_update = 15
status_code pending_renew = 16
status_code (other_status n) = 17 + n

abbrev pub status_eq : Status → Status → Bool
status_eq s t = status_code s == status_code t

pub status_eq-eq : (s t : Status) → status_eq s t ≡ true → s ≡ t
status_eq-eq s t h = ground arith

pub status_eq_refl : (s : Status) → status_eq s s ≡ true
status_eq_refl s = ground arith

-- The flag is in the list.
abbrev pub has_status : Status → List Status → Bool
has_status s l = any (λ t. status_eq t s) l
