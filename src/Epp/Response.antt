-- ===== src/Epp/Response.antt =====
-- epp/response.go: the parts of a response that provisioning reads. A pointer that may be nil is
-- an Option. Also the result codes, Response.IsError and Response.IsFatalError.
use go_registrar.Prelude.{ℕ, String, Bool, ◌&&◌, Option, none, some, List, leb, ◌==◌, str_eq}
use go_registrar.Epp.Status.{Status}

pub record DsData : Type 0 where
  pub key_tag : ℕ
  pub alg : ℕ
  pub digest_type : ℕ
  pub digest : String

pub record HostAddress : Type 0 where
  pub address : String
  pub is_v6 : Bool

pub record DomainInf : Type 0 where
  pub status : List Status
  pub ns_hosts : List String

pub record HostInf : Type 0 where
  pub status : List Status
  pub addresses : List HostAddress

pub record ResultData : Type 0 where
  pub domain_inf : Option DomainInf
  pub host_inf : Option HostInf

-- ResponseExtension: its SecDNSInfData, if any.
pub record Extension : Type 0 where
  pub sec_dns : Option (List DsData)

pub record Response : Type 0 where
  pub code : ℕ
  pub result_data : Option ResultData
  pub extension : Option Extension

-- The nil checks in front of the domain and the host section of a response.
abbrev domain_section : Option ResultData → Option DomainInf
domain_section none = none
domain_section (some d) = d.domain_inf

abbrev host_section : Option ResultData → Option HostInf
host_section none = none
host_section (some d) = d.host_inf

abbrev pub domain_inf_of : Option Response → Option DomainInf
domain_inf_of none = none
domain_inf_of (some r) = domain_section r.result_data

abbrev pub host_inf_of : Option Response → Option HostInf
host_inf_of none = none
host_inf_of (some r) = host_section r.result_data

-- Response.IsFatalError and Response.IsError.
unfoldable pub is_fatal_error : ℕ → Bool
is_fatal_error code = leb 2500 code && leb code 2599

unfoldable pub is_error : ℕ → Bool
is_error code = leb 2000 code && leb code 2999

-- Equality of the texts "%d:%d:%d:%s" by which DS records are keyed.
abbrev pub ds_eq : DsData → DsData → Bool
ds_eq a b =
    a.key_tag == b.key_tag
    && a.alg == b.alg
    && a.digest_type == b.digest_type
    && str_eq a.digest b.digest
