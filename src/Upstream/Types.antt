-- ===== src/Upstream/Types.antt =====
-- app/upstream_dns.py: the table `upstream_resolvers`, what a form gives and what is raised.
use alderpoint_dns.Base.{ℕ, Text, Bool, Option}
use alderpoint_dns.Base.Results

pub data Protocol : Type 0 where
  plain dot doh : Protocol

pub data Status : Type 0 where
  checking disabled healthy failed : Status

-- What a form gives: `none` where the key is missing.
pub record Form : Type 0 where
  pub protocol : Option Text
  pub name : Option Text
  pub enabled : Option Text
  pub address : Option Text
  pub port : Option Text
  pub doh_path : Option Text
  pub tls_hostname : Option Text
  pub bootstrap_ips : Option Text

-- What `validate_resolver` returns.
pub record Resolver : Type 0 where
  pub name : Text
  pub protocol : Protocol
  pub address : Text
  pub port : ℕ
  pub doh_path : Text
  pub tls_hostname : Text
  pub bootstrap_ips : Text
  pub enabled : Bool

-- The state of the direct probes of a resolver; a latency is a number that is passed through.
pub record Probe : Type 0 where
  pub status : Status
  pub message : Text
  pub latency : Option ℕ
  pub checked_at : Option Text
  pub failures : ℕ

pub record Row : Type 0 where
  pub id : ℕ
  pub resolver : Resolver
  pub open resolver use *
  pub position : ℕ
  pub probe : Probe
  pub created_at : Text
  pub updated_at : Text

-- What a `raise` says.
pub data UpstreamError : Type 0 where
  bad_protocol name_required address_required bad_idna bad_hostname : UpstreamError
  port_not_number port_range bad_bootstrap bad_url url_has_query url_port : UpstreamError
  bootstrap_required bad_doh_path not_found last_enabled : UpstreamError

abbrev pub Result : Type 0 → Type 0
Result A = Results.Result UpstreamError A

-- `urllib.parse.urlparse` of a text; reading the port may raise, which is `none`.
pub record Url : Type 0 where
  pub scheme : Text
  pub hostname : Option Text
  pub path : Text
  pub query : Text
  pub fragment : Text
  pub port : Option (Option ℕ)
