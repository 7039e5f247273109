-- ===== src/Domain/Valid.antt =====
-- What `normalize_domain` accepts.
use alderpoint_dns.Base.{Text, true, some, ◌≡◌, arith, ◌==◌, inl, inr, Option-cases}
use alderpoint_dns.Base.Str.{strip, strip_by}
use alderpoint_dns.Platform.{Platform, lower}
use alderpoint_dns.Domain.{matches_domain_re, accept_ascii, normalize_domain}

accept_ascii-matches : (value d : Text) → accept_ascii value ≡ some d → matches_domain_re d ≡ true
unfolding accept_ascii
accept_ascii-matches value d h = ground arith

-- Every name that is accepted is a domain name: labels of at most 63 characters from `a-z0-9_-`,
-- two or more, in at most 253 characters.
pub normalize_domain-matches :
    (py : Platform) (raw d : Text) → normalize_domain py raw ≡ some d → matches_domain_re d ≡ true
unfolding normalize_domain
normalize_domain-matches py raw d h =
    let value = lower py (strip_by (λ c. c == b'.') (strip raw)) in
    elim (Option-cases (py.idna value)) [
      | inl e ↦ ground (arith, accept_ascii-matches value d)
      | inr (ascii, e) ↦ ground (arith, accept_ascii-matches value d, accept_ascii-matches ascii d)
    ]
