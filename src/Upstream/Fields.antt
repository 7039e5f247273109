-- ===== src/Upstream/Fields.antt =====
-- What the normalised fields of a resolver are: a port, a host, and what the protocol needs.
use alderpoint_dns.Base.{
  ℕ, zero, suc, ◌≤◌, Text, Bool, true, false, not, ◌&&◌, ◌||◌, Option, none, some, [], ◌∷◌, length,
  ltb, leb, if◌then◌else◌, ◌≡◌, refl, subst, Bool-cases, inl, inr, arith,
}
use alderpoint_dns.Base.Results.{error, ok, or_raise, Returns, Returns-bind, Returns-raise_if}
use alderpoint_dns.Base.Str.{strip, strip_by, take}
use alderpoint_dns.Platform.{Platform, lower}
use alderpoint_dns.Net.{Address, show_address, ip_address, is_written, show_address-is_written}
use alderpoint_dns.Upstream.Types.{
  Protocol, plain, dot, doh, Result, address_required, bad_idna, bad_hostname, port_not_number,
}
use alderpoint_dns.Upstream.Validate.{
  is_blank, or_text, matches_hostname, host_is_ip, idna_host, normalize_host, parse_int, check_port,
  normalize_port, Endpoint, default_path, or_443,
}

abbrev pub IsPort : ℕ → Type 0
IsPort n = (1 ≤ n) × (n ≤ 65535)

-- The fields that a protocol needs.
abbrev pub has_fields : Protocol → Text → Text → Text → Text → Bool
has_fields plain address doh_path tls_hostname bootstrap_ips = is_blank doh_path
has_fields dot address doh_path tls_hostname bootstrap_ips =
    is_blank doh_path && is_written tls_hostname
has_fields doh address doh_path tls_hostname bootstrap_ips =
    is_written tls_hostname
    && (is_written doh_path && (host_is_ip address || is_written bootstrap_ips))

pub record IsEndpoint (protocol : Protocol) (e : Endpoint) : Type 0 where
  pub port : IsPort e.port
  pub address : is_written e.address ≡ true
  pub fields : has_fields protocol e.address e.doh_path e.tls_hostname e.bootstrap_ips ≡ true

idna_host-is_written :
    (py : Platform) (host : Text) → Returns (λ a. is_written a ≡ true) (idna_host py host)
unfolding idna_host matches_hostname
idna_host-is_written py host =
    Returns-bind (λ a. is_written a ≡ true) (or_raise (py.idna host) bad_idna) _
      (λ name _.
        Returns-raise_if (λ a. is_written a ≡ true) (not (matches_hostname name)) bad_hostname _
          (written name))
  where
    written : (name : Text) → not (matches_hostname name) ≡ false → is_written name ≡ true
    written [] h = ground (arith, h)
    written (c ∷ s) h = refl

pub normalize_host-is_written :
    (py : Platform) (value : Text) → Returns (λ a. is_written a ≡ true) (normalize_host py value)
unfolding normalize_host
normalize_host-is_written py value = go (lower py (strip_by _ (strip value)))
  where
    found :
        (host : Text) (a : Option Address)
        → Returns
            (λ a. is_written a ≡ true)
            (elim a as (λ _. Result Text) [
              | some a ↦ ok (show_address a)
              | none ↦ idna_host py host
            ])
    found host (some a) = show_address-is_written a
    found host none = idna_host-is_written py host

    go :
        (host : Text)
        → Returns
            (λ a. is_written a ≡ true)
            (if is_blank host
              then error address_required
              else elim (ip_address host) as (λ _. Result Text) [
                | some a ↦ ok (show_address a)
                | none ↦ idna_host py host
              ])
    go [] = tt
    go (c ∷ cs) = found (c ∷ cs) (ip_address (c ∷ cs))

check_port-IsPort : (p : Bool × ℕ) → Returns IsPort (check_port p)
unfolding check_port
check_port-IsPort (negative, n) = elim (Bool-cases (negative || (ltb n 1 || ltb 65535 n))) [
  | inl e ↦ rw e tt
  | inr e ↦ rw e (ground (arith, e), ground (arith, e))
]

pub normalize_port-IsPort :
    (port : Option Text) (default : ℕ) → Returns IsPort (normalize_port port default)
unfolding normalize_port
normalize_port-IsPort none default = check_port-IsPort (false, default)
normalize_port-IsPort (some []) default = check_port-IsPort (false, default)
normalize_port-IsPort (some (c ∷ cs)) default =
    Returns-bind IsPort (or_raise (parse_int (c ∷ cs)) port_not_number) check_port
      (λ p _. check_port-IsPort p)

pub or_443-IsPort : (port : Option ℕ) → ((n : ℕ) → port ≡ some n → n ≤ 65535) → IsPort (or_443 port)
or_443-IsPort none h = (omega arith, omega arith)
or_443-IsPort (some zero) h = (omega arith, omega arith)
or_443-IsPort (some (suc n)) h = (omega arith, h (suc n) refl)

pub or_text-is_written : (s t : Text) → is_written t ≡ true → is_written (or_text s t) ≡ true
or_text-is_written [] t h = h
or_text-is_written (c ∷ s) t h = refl

is_blank-is_written : (s : Text) → is_blank s ≡ not (is_written s)
is_blank-is_written [] = refl
is_blank-is_written (c ∷ s) = refl

pub take-is_written : (n : ℕ) (s : Text) → is_blank s ≡ false → is_written (take (suc n) s) ≡ true
unfolding take
take-is_written n [] h = ground (arith, h)
take-is_written n (c ∷ s) h = refl

pub length-take : (n : ℕ) (s : Text) → leb (length (take n s)) n ≡ true
unfolding take
length-take zero s = ground arith
length-take (suc n) [] = ground arith
length-take (suc n) (c ∷ s) = ground (arith, length-take n s)

-- A value that is returned is what holds of it.
pub returned : {A : Type 0} (P : A → Type 0) (m : Result A) (a : A) → Returns P m → m ≡ ok a → P a
returned P m a h e = subst (Returns P) e h

pub doh_fields :
    (host name path bootstrap : Text)
    → is_written host ≡ true
    → (not (host_is_ip host) && is_blank bootstrap) ≡ false
    → has_fields doh host (or_text path default_path) (or_text name host) bootstrap ≡ true
doh_fields host name path bootstrap h w = ground (
  arith,
  w,
  is_blank-is_written bootstrap,
  or_text-is_written name host h,
  or_text-is_written path default_path refl,
)
