-- ===== src/Sources/Types.antt =====
-- app/alderpointdns_compiler.py: what a line of a source says, and the counts of a source.
use alderpoint_dns.Base.{ℕ, Text, Bool, true, false, Option, none, some, List, teq}
use alderpoint_dns.Rules.Types.{Action}

pub data Rejection : Type 0 where
  invalid unsupported : Rejection

-- One result of `parse_source_line`: the kind, with the domain or the reason that goes with it.
pub data Verdict : Type 0 where
  skip : Verdict
  rejected : Rejection → Text → Verdict
  accepted : Action → Option Text → Verdict

pub record Sample : Type 0 where
  pub line : ℕ
  pub kind : Rejection
  pub reason : Text
  pub excerpt : Text

-- `ParseStats`
pub record Stats : Type 0 where
  pub downloaded_entries : ℕ
  pub parsed_rules : ℕ
  pub accepted_domains : ℕ
  pub duplicate_domains : ℕ
  pub invalid_rules : ℕ
  pub unsupported_rules : ℕ
  pub unique_active_domains : ℕ
  pub exceptions : ℕ
  pub rejected_samples : List Sample

abbrev pub same_domain : Option Text → Option Text → Bool
same_domain none none = true
same_domain none (some t) = false
same_domain (some s) none = false
same_domain (some s) (some t) = teq s t

-- A set of domains, as a list with no domain twice.
abbrev pub Domains : Type 0
Domains = List (Option Text)
