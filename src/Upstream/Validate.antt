-- ===== src/Upstream/Validate.antt =====
-- app/upstream_dns.py: `validate_resolver` and the normalisation of its fields. `urlparse` is a
-- parameter.
use alderpoint_dns.Base.{
  ℕ, zero, suc, ◌+◌, ◌*◌, ◌-◌, Text, codes, Bool, true, false, not, ◌&&◌, ◌||◌, Option, none, some,
  List, [], ◌∷◌, map, all, length, ltb, leb, ◌==◌, teq, if◌then◌else◌,
}
use alderpoint_dns.Base.Results.{error, ok, ◌>>=◌, ◌>>◌, raise_if, or_raise}
use alderpoint_dns.Base.Str.{is_digit, strip, strip_by, split, starts_with, take, join}
use alderpoint_dns.Platform.{Platform, lower, upper}
use alderpoint_dns.Net.{ip_address, show_address}
use alderpoint_dns.Upstream.Types.{
  Protocol, plain, dot, doh, Form, Resolver, Result, Url, bad_protocol, name_required,
  address_required, bad_idna, bad_hostname, port_not_number, port_range, bad_bootstrap, bad_url,
  url_has_query, url_port, bootstrap_required, bad_doh_path,
}

abbrev pub is_blank : Text → Bool
is_blank [] = true
is_blank (_ ∷ _) = false

-- `first or second`, and `values.get(key, "")`.
abbrev pub or_text : Text → Text → Text
or_text [] second = second
or_text (c ∷ cs) second = c ∷ cs

abbrev pub given : Option Text → Text
given none = []
given (some s) = s

abbrev is_bracket : ℕ → Bool
is_bracket c = c == b'[' || c == b']'

-- `[a-z0-9]` and `[a-z0-9-]` of DOMAIN_RE.
is_edge_char : ℕ → Bool
is_edge_char c = (leb 97 c && leb c 122) || (leb 48 c && leb c 57)

is_label_char : ℕ → Bool
unfolding is_edge_char
is_label_char c = is_edge_char c || c == 45

last_char : ℕ → Text → ℕ
last_char c [] = c
last_char c (d ∷ s) = last_char d s

is_label : Text → Bool
unfolding is_edge_char is_label_char last_char all
is_label [] = false
is_label (c ∷ s) =
    (is_edge_char c && is_edge_char (last_char c s)) && (all is_label_char s && ltb (length s) 63)

abbrev has_two : List Text → Bool
has_two (_ ∷ _ ∷ _) = true
has_two _ = false

unfoldable pub matches_hostname : Text → Bool
unfolding is_label all split
matches_hostname s = leb (length s) 253 && (has_two (split b'.' s) && all is_label (split b'.' s))

unfoldable pub host_is_ip : Text → Bool
host_is_ip value = elim (ip_address (strip_by is_bracket value)) [ none ↦ false | some _ ↦ true ]

unfoldable pub idna_host : Platform → Text → Result Text
unfolding matches_hostname
idna_host py host = do
  name ← or_raise (py.idna host) bad_idna
  raise_if (not (matches_hostname name)) bad_hostname
  ok name

unfoldable pub normalize_host : Platform → Text → Result Text
unfolding idna_host
normalize_host py value =
    let host = lower py (strip_by is_bracket (strip value)) in
    if is_blank host
    then error address_required
    else elim (ip_address host) [ some a ↦ ok (show_address a) | none ↦ idna_host py host ]

-- The digits of a number, an underscore allowed between two; the value, if it is one.
digits_of : Bool → ℕ → Text → Option ℕ
unfolding is_digit
digits_of after n [] = if after then some n else none
digits_of after n (c ∷ s) =
    let more = digits_of true (n * 10 + (c - 48)) s in
    let next = digits_of false n s in
    if is_digit c then more else if c == b'_' && after then next else none

-- `int(text)` of ASCII digits: the sign and the magnitude.
unfoldable pub parse_int : Text → Option (Bool × ℕ)
unfolding digits_of
parse_int text = go (strip text)
  where
    with_sign : Bool → Text → Option (Bool × ℕ)
    with_sign negative s = elim (digits_of false 0 s) [ none ↦ none | some n ↦ some (negative, n) ]

    go : Text → Option (Bool × ℕ)
    go [] = none
    go (c ∷ s) =
        if c == b'-'
        then with_sign true s
        else if c == b'+'
        then with_sign false s
        else with_sign false (c ∷ s)

unfoldable pub check_port : Bool × ℕ → Result ℕ
check_port (negative, n) = if negative || (ltb n 1 || ltb 65535 n) then error port_range else ok n

-- A port that is missing or empty is the default.
unfoldable pub normalize_port : Option Text → ℕ → Result ℕ
normalize_port none default = check_port (false, default)
normalize_port (some []) default = check_port (false, default)
normalize_port (some (c ∷ cs)) default = do
  n ← or_raise (parse_int (c ∷ cs)) port_not_number
  check_port n

unfoldable pub bootstrap_list : List Text → Result (List Text)
bootstrap_list [] = ok []
bootstrap_list (raw ∷ rest) =
    let skipped = bootstrap_list rest in
    let kept = (do
      a ← or_raise (ip_address (strip raw)) bad_bootstrap
      others ← bootstrap_list rest
      ok (show_address a ∷ others)) in
    if is_blank (strip raw) then skipped else kept

unfoldable pub normalize_bootstrap : Text → Result Text
unfolding bootstrap_list
normalize_bootstrap value = do
  addresses ← bootstrap_list (split b',' (map (λ c. if c == 10 then b',' else c) value))
  ok (join (codes ", ") addresses)

-- The fields that depend on the protocol.
pub record Endpoint : Type 0 where
  pub address : Text
  pub port : ℕ
  pub doh_path : Text
  pub tls_hostname : Text
  pub bootstrap_ips : Text

abbrev pub default_path : Text
default_path = codes "/dns-query"

abbrev pub or_443 : Option ℕ → ℕ
or_443 none = 443
or_443 (some zero) = 443
or_443 (some (suc n)) = suc n

abbrev pub default_port : Protocol → ℕ
default_port dot = 853
default_port _ = 53

abbrev pub name_or_host : Protocol → Text → Text → Text
name_or_host dot name host = or_text name host
name_or_host _ name host = name

module _ (py : Platform) (urlparse : Text → Url) where
  unfoldable pub url_endpoint : Url → Form → Result Endpoint
  url_endpoint url form = do
    hostname ← or_raise url.hostname bad_url
    raise_if (not (teq url.scheme (codes "https")) || is_blank hostname) bad_url
    raise_if (not (is_blank url.query) || not (is_blank url.fragment)) url_has_query
    host ← normalize_host py hostname
    port ← or_raise url.port url_port
    bootstrap ← normalize_bootstrap (given form.bootstrap_ips)
    raise_if (not (host_is_ip host) && is_blank bootstrap) bootstrap_required
    ok (record {
      address = host;
      port = or_443 port;
      doh_path = or_text url.path default_path;
      tls_hostname = or_text (lower py (strip (given form.tls_hostname))) host;
      bootstrap_ips = bootstrap;
    })

  unfoldable pub host_endpoint : Form → Result Endpoint
  host_endpoint form = do
    host ← normalize_host py (given form.address)
    bootstrap ← normalize_bootstrap (given form.bootstrap_ips)
    raise_if (not (host_is_ip host) && is_blank bootstrap) bootstrap_required
    port ← normalize_port form.port 443
    ok (record {
      address = host;
      port = port;
      doh_path = or_text (strip (given form.doh_path)) default_path;
      tls_hostname = or_text (lower py (strip (given form.tls_hostname))) host;
      bootstrap_ips = bootstrap;
    })

  -- `_normalize_doh_url`
  unfoldable pub doh_endpoint : Form → Result Endpoint
  doh_endpoint form =
      let url = urlparse (strip (given form.address)) in
      if is_blank url.scheme then host_endpoint form else url_endpoint url form

  unfoldable pub other_endpoint : Protocol → Form → Result Endpoint
  other_endpoint protocol form = do
    host ← normalize_host py (given form.address)
    port ← normalize_port form.port (default_port protocol)
    bootstrap ← normalize_bootstrap (given form.bootstrap_ips)
    ok (record {
      address = host;
      port = port;
      doh_path = [];
      tls_hostname = name_or_host protocol (lower py (strip (given form.tls_hostname))) host;
      bootstrap_ips = bootstrap;
    })

  unfoldable pub endpoint_of : Protocol → Form → Result Endpoint
  endpoint_of doh form = doh_endpoint form
  endpoint_of protocol form = other_endpoint protocol form

  unfoldable pub protocol_of : Text → Option Protocol
  unfolding teq
  protocol_of s =
      if teq s (codes "plain")
      then some plain
      else if teq s (codes "dot")
      then some dot
      else if teq s (codes "doh")
      then some doh
      else none

  abbrev pub is_on : Option Text → Bool
  is_on none = false
  is_on (some s) =
      let t = lower py s in
      teq t (codes "1") || (teq t (codes "true") || (teq t (codes "on") || teq t (codes "yes")))

  abbrev pub protocol_text : Option Text → Text
  protocol_text none = codes "plain"
  protocol_text (some s) = lower py (strip s)

  -- With `require_enabled_set`: a form without `enabled` is one that is off.
  unfoldable pub validate_resolver : Form → Result Resolver
  unfolding endpoint_of protocol_of
  validate_resolver form = do
    protocol ← or_raise (protocol_of (protocol_text form.protocol)) bad_protocol
    let name = strip (or_text (given form.name) (upper py (protocol_text form.protocol)))
    raise_if (is_blank name) name_required
    e ← endpoint_of protocol form
    raise_if (not (is_blank e.doh_path) && not (starts_with (codes "/") e.doh_path)) bad_doh_path
    ok (record {
      name = take 120 name;
      protocol = protocol;
      address = e.address;
      port = e.port;
      doh_path = e.doh_path;
      tls_hostname = e.tls_hostname;
      bootstrap_ips = e.bootstrap_ips;
      enabled = is_on form.enabled;
    })
