-- ===== src/Upstream/Tests.antt =====
-- A table of resolvers at work.
use alderpoint_dns.Base.{
  ℕ, ◌≤◌, Text, codes, Bool, true, false, Option, none, some, List, [], ◌∷◌, map, ◌≡◌, ◌≢◌, refl,
  arith, subst,
}
use alderpoint_dns.Base.Results.{error, ok, Returns}
use alderpoint_dns.Platform.{plain_python}
use alderpoint_dns.Upstream.Types.{Form, Row, Result, Url, last_enabled}
use alderpoint_dns.Upstream.Ready.{IsReady, validate_resolver-IsReady}
use alderpoint_dns.Upstream.Table.{raised}
use alderpoint_dns.Upstream.Table.Invariant.{IsGood}
use alderpoint_dns.Upstream.Table.Reachable.{
  Operation, deletes, switches, probes, After, here, after, After-IsGood, After-enabled_resolvers,
}
use alderpoint_dns.Base.{teq, tle}
use alderpoint_dns.Base.{keep, any, all}
use alderpoint_dns.Base.Str.{
  is_space, starts_with, ends_with, mem_char, has, strip_left, strip_right, strip_by, strip, drop,
  take, drop_last, char_at, partition, find, split, words, is_break, split_lines, join, is_digit,
  is_hex, is_letter, is_control, lower_ascii, upper_ascii,
}
use alderpoint_dns.Net.{value_of, parse_v4, parse_v6, ip_address, decimal, is_v4}
use alderpoint_dns.Platform.{is_ascii, lower, upper, is_alnum}
use alderpoint_dns.Base.Tables.{fresh_id}
use alderpoint_dns.Upstream.Validate.{
  matches_hostname, host_is_ip, idna_host, normalize_host, parse_int, check_port, normalize_port,
  bootstrap_list, normalize_bootstrap, url_endpoint, host_endpoint, doh_endpoint, other_endpoint,
  endpoint_of, protocol_of, validate_resolver,
}
use alderpoint_dns.Upstream.Table.{
  place, resolvers, enabled_resolvers, change_row, reset_probe_state, would_leave_zero_enabled,
  set_positions, renumber, next_position, swapped, reorder, set_probe, count_failure,
  record_probe_result, seed_row, seed_rows, seed_from_named_options, init_db, add_resolver,
  update_found, update_resolver, delete_found, delete_resolver, switch_found, set_enabled,
  move_found, move_resolver,
}
use alderpoint_dns.Upstream.Table.Reachable.{run}

program : Unit {0}
unfolding teq tle keep any all is_space starts_with ends_with mem_char has strip_left strip_right
    strip_by strip drop take drop_last char_at partition find split words is_break split_lines join
    is_digit is_hex is_letter is_control lower_ascii upper_ascii value_of parse_v4 parse_v6
    ip_address decimal is_v4 is_ascii lower upper is_alnum fresh_id matches_hostname host_is_ip
    idna_host normalize_host parse_int check_port normalize_port bootstrap_list normalize_bootstrap
    url_endpoint host_endpoint doh_endpoint other_endpoint endpoint_of protocol_of validate_resolver
    place resolvers enabled_resolvers change_row reset_probe_state would_leave_zero_enabled
    set_positions renumber next_position swapped reorder set_probe count_failure record_probe_result
    seed_row seed_rows seed_from_named_options init_db add_resolver update_found update_resolver
    delete_found delete_resolver switch_found set_enabled move_found move_resolver run
program = tt

-- A reader of addresses that finds one URL in all of them.
abbrev one_url : Text → Url
one_url _ = record {
  scheme = codes "https";
  hostname = some (codes "dns.example");
  path = codes "/dns-query";
  query = [];
  fragment = [];
  port = some (some 443);
}

port_of : Option (Option ℕ) → ℕ
port_of (some (some n)) = n
port_of _ = 0

ports : (s : Text) (n : ℕ) → (one_url s).port ≡ some (some n) → n ≤ 65535
unfolding port_of
ports s n e = subst (λ p. port_of p ≤ 65535) e (omega arith)

abbrev doh_form : Form
doh_form = record {
  protocol = some (codes "DoH");
  name = some (codes " Example ");
  enabled = some (codes "on");
  address = some (codes "https://dns.example/dns-query");
  port = none;
  doh_path = none;
  tls_hostname = none;
  bootstrap_ips = some (codes "192.0.2.1, 2001:DB8::1");
}

validate_resolver-IsReady_example :
    Returns IsReady (validate_resolver plain_python one_url doh_form)
validate_resolver-IsReady_example = validate_resolver-IsReady plain_python one_url ports doh_form

abbrev forwarders : Option (ℕ × List Text)
forwarders = some (53, codes "192.0.2.1" ∷ codes "192.0.2.2" ∷ [])

abbrev redact : Text → Text
redact s = s

abbrev today : Text
today = codes "2026-01-01"

-- Deleting no row leaves the two that the options name.
abbrev seeds : Operation
seeds = deletes 9

abbrev switches_first : Operation
switches_first = switches 1 false

seeded : List Row
unfolding program
seeded = init_db plain_python one_url forwarders today []

rows_of : Result (List Row) → List Row
rows_of (error _) = []
rows_of (ok rows) = rows

second_only : List Row
unfolding program rows_of
second_only = rows_of (run plain_python one_url forwarders redact switches_first today seeded)

probed : List Row
unfolding program rows_of
probed = rows_of (
    run plain_python one_url forwarders redact (probes 2 (raised (codes "timed out"))) today
      second_only)

seeded-run : run plain_python one_url forwarders redact seeds today [] ≡ ok seeded
unfolding program seeded
seeded-run = refl

second-run : run plain_python one_url forwarders redact switches_first today seeded ≡ ok second_only
unfolding program seeded second_only rows_of
second-run = refl

probed-run :
    run plain_python one_url forwarders redact
      (probes 2 (raised (codes "timed out")))
      today
      second_only
    ≡ ok probed
unfolding program seeded second_only probed rows_of
probed-run = refl

abbrev seen : Row → ℕ × Bool × ℕ
seen r = (r.id, r.enabled, r.probe.failures)

-- The second resolver alone is enabled, and its probe has failed once; it cannot be switched off.
probed_rows : map seen probed ≡ (1, false, 0) ∷ (2, true, 1) ∷ []
unfolding program seeded second_only probed rows_of
probed_rows = refl

last_is_kept :
    run plain_python one_url forwarders redact (switches 2 false) today probed ≡ error last_enabled
unfolding program seeded second_only probed rows_of
last_is_kept = refl

After-seeded : After plain_python one_url forwarders redact [] seeded
After-seeded = after seeds today [] seeded here seeded-run

After-IsGood_example : IsGood seeded
After-IsGood_example = After-IsGood plain_python one_url forwarders redact seeded After-seeded

seeded_some : enabled_resolvers seeded ≢ []
unfolding program seeded
seeded_some e = ground (arith, e)

After-enabled_resolvers_example : enabled_resolvers probed ≢ []
After-enabled_resolvers_example =
    After-enabled_resolvers plain_python one_url forwarders redact seeded probed After-seeded
      seeded_some
      (after (probes 2 (raised (codes "timed out"))) today second_only probed
        (after switches_first today seeded second_only here second-run) probed-run)
