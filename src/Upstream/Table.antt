-- ===== src/Upstream/Table.antt =====
-- app/upstream_dns.py: the operations on the table `upstream_resolvers`, a list in the order of its
-- ids. What the match of `forwarders` in named's options gives is a parameter, and so is the text
-- that `_redact_probe_message` makes. An operation that raises is rolled back.
-- What app/importer.py and the deployment of dnsdist write in the table is left out.
pub mod Invariant
pub mod Reachable
use alderpoint_dns.Base.{
  ℕ, zero, suc, ◌+◌, ◌-◌, max, Text, codes, Bool, true, false, not, ◌&&◌, ◌||◌, Option, none, some,
  List, [], ◌∷◌, ◌++◌, map, keep, any, ltb, leb, ◌==◌, teq, if◌then◌else◌,
}
use alderpoint_dns.Base.Results.{error, ok, ◌>>=◌, ◌>>◌, raise_if, or_raise}
use alderpoint_dns.Base.Str.{take}
use alderpoint_dns.Base.Tables.{fresh_id}
use alderpoint_dns.Platform.{Platform}
use alderpoint_dns.Net.{decimal}
use alderpoint_dns.Upstream.Types.{
  plain, Status, checking, disabled, healthy, failed, Form, Resolver, Probe, Row, Result, Url,
  not_found, last_enabled,
}
use alderpoint_dns.Upstream.Validate.{normalize_host, validate_resolver}

-- ORDER BY position, id
abbrev comes_before : Row → Row → Bool
comes_before r s = ltb r.position s.position || (r.position == s.position && leb r.id s.id)

unfoldable pub place : Row → List Row → List Row
place r [] = r ∷ []
place r (s ∷ rows) = if comes_before r s then r ∷ s ∷ rows else s ∷ place r rows

unfoldable pub resolvers : List Row → List Row
unfolding place
resolvers [] = []
resolvers (r ∷ rows) = place r (resolvers rows)

unfoldable pub enabled_resolvers : List Row → List Row
enabled_resolvers rows = keep (λ (r : Row). r.enabled) (resolvers rows)

abbrev new_probe : Bool → Probe
new_probe enabled =
    if enabled
    then record { status = checking; message = []; latency = none; checked_at = none; failures = 0 }
    else record {
      status = disabled;
      message = codes "Disabled";
      latency = none;
      checked_at = none;
      failures = 0;
    }

-- UPDATE … WHERE id=?
unfoldable pub change_row : ℕ → (Row → Row) → List Row → List Row
change_row k change = map (λ (r : Row). if r.id == k then change r else r)

-- `_reset_probe_state`
unfoldable pub reset_probe_state : ℕ → Bool → List Row → List Row
reset_probe_state k enabled = change_row k (λ (r : Row). record r { probe = new_probe enabled })

abbrev pub is_other : ℕ → Row → Bool
is_other k r = not (r.id == k) && r.enabled

-- `_would_leave_zero_enabled`
unfoldable pub would_leave_zero_enabled : ℕ → Bool → List Row → Bool
would_leave_zero_enabled k disabling rows = disabling && not (any (is_other k) rows)

-- The positions 1, 2, … in the order of some ids.
unfoldable pub set_positions : ℕ → List ℕ → List Row → List Row
set_positions pos [] rows = rows
set_positions pos (k ∷ ids) rows =
    set_positions (suc pos) ids (change_row k (λ (r : Row). record r { position = pos }) rows)

unfoldable pub renumber : List Row → List Row
renumber rows = set_positions 1 (map (λ (r : Row). r.id) (resolvers rows)) rows

-- `coalesce(max(position), 0) + 1`
unfoldable pub next_position : List Row → ℕ
next_position [] = 1
next_position (r ∷ rows) = max (suc r.position) (next_position rows)

abbrev pub first_of {ℓ} : {A : Type ℓ} → List A → Option A
first_of [] = none
first_of (x ∷ _) = some x

abbrev pub is_enabled : Option Row → Bool
is_enabled none = false
is_enabled (some r) = r.enabled

abbrev pub index_of : ℕ → List ℕ → Option ℕ
index_of k [] = none
index_of k (j ∷ ids) =
    if j == k then some 0 else elim (index_of k ids) [ none ↦ none | some n ↦ some (suc n) ]

abbrev get_at : List ℕ → ℕ → Option ℕ
get_at [] n = none
get_at (j ∷ ids) zero = some j
get_at (j ∷ ids) (suc n) = get_at ids n

abbrev set_at : ℕ → ℕ → List ℕ → List ℕ
set_at n k [] = []
set_at zero k (j ∷ ids) = k ∷ ids
set_at (suc n) k (j ∷ ids) = j ∷ set_at n k ids

-- The index that a resolver moves to, if there is one.
abbrev target : Text → ℕ → Option ℕ
target direction idx =
    if teq direction (codes "up") then elim idx [ zero ↦ none | suc n ↦ some n ] else some (suc idx)

-- The ids after the exchange; `none` where the resolver is already the first or the last.
unfoldable pub swapped : ℕ → Text → ℕ → List ℕ → Option (List ℕ)
swapped k direction idx ids = elim (target direction idx) [
  | none ↦ none
  | some swap ↦ elim (get_at ids swap) [
    | none ↦ none
    | some j ↦ some (set_at swap k (set_at idx j ids))
  ]
]

unfoldable pub reorder : List Row → Option (List ℕ) → List Row
reorder rows none = rows
reorder rows (some ids) = set_positions 1 ids rows

-- The outcome of one probe: its latency, or what the exception says.
pub data Outcome : Type 0 where
  succeeded : Option ℕ → Outcome
  raised : Text → Outcome

abbrev pub threshold : ℕ
threshold = 3

abbrev pub probe_success : Option ℕ → Text → Probe
probe_success latency ts = record {
  status = healthy;
  message = codes "Direct probe succeeded";
  latency = latency;
  checked_at = some ts;
  failures = 0;
}

abbrev pub is_probed : ℕ → Row → Bool
is_probed k r = r.id == k && r.enabled

-- UPDATE … WHERE id=? AND enabled=1
unfoldable pub set_probe : ℕ → Probe → List Row → List Row
set_probe k probe = map (λ (r : Row). if is_probed k r then record r { probe = probe } else r)

module _ (redact : Text → Text) where
  abbrev pub probe_failure : ℕ → Text → Text → Probe
  probe_failure failures message ts = record {
    status = if leb threshold failures then failed else checking;
    message =
        if leb threshold failures
        then take 400 (redact message)
        else codes "Probe failed " ++ decimal failures ++ codes "/3; waiting for confirmation";
    latency = none;
    checked_at = some ts;
    failures = failures;
  }

  -- One failure more than the row that was fetched has, if there is one.
  unfoldable pub count_failure : ℕ → Text → Text → List Row → Option Row → List Row
  count_failure k message ts rows none = rows
  count_failure k message ts rows (some row) =
      set_probe k (probe_failure (suc row.probe.failures) message ts) rows

  unfoldable pub record_probe_result : ℕ → Outcome → Text → List Row → List Row
  unfolding count_failure
  record_probe_result k (succeeded latency) ts rows = set_probe k (probe_success latency ts) rows
  record_probe_result k (raised message) ts rows =
      count_failure k message ts rows (first_of (keep (is_probed k) rows))

abbrev imported : ℕ → Text → ℕ → Text → List Row → Row
imported idx address port ts rows = record {
  id = fresh_id (λ (r : Row). r.id) rows;
  resolver = record {
    name = codes "Imported upstream " ++ decimal idx;
    protocol = plain;
    address = address;
    port = port;
    doh_path = [];
    tls_hostname = [];
    bootstrap_ips = [];
    enabled = true;
  };
  position = idx;
  probe = new_probe true;
  created_at = ts;
  updated_at = ts;
}

abbrev default_servers : List Text
default_servers = codes "1.1.1.2" ∷ codes "1.0.0.2" ∷ codes "4.2.2.1" ∷ codes "4.2.2.2" ∷ []

-- A server that is no host is passed over.
unfoldable pub seed_row : ℕ → ℕ → Text → List Row → Result Text → List Row
seed_row idx port ts rows (error _) = rows
seed_row idx port ts rows (ok address) = rows ++ imported idx address port ts rows ∷ []

-- What the options name, or the port and the servers that stand for them.
abbrev pub forwarders_or_default : Option (ℕ × List Text) → ℕ × List Text
forwarders_or_default none = (53, default_servers)
forwarders_or_default (some named) = named

module _ (py : Platform) (urlparse : Text → Url) (forwarders : Option (ℕ × List Text)) where
  unfoldable pub seed_rows : ℕ → ℕ → List Text → Text → List Row → List Row
  unfolding seed_row
  seed_rows idx port [] ts rows = rows
  seed_rows idx port (server ∷ servers) ts rows =
      seed_rows (suc idx) port servers ts (seed_row idx port ts rows (normalize_host py server))

  unfoldable pub seed_from_named_options : Text → List Row → List Row
  unfolding seed_rows
  seed_from_named_options ts rows =
      seed_rows 1 (forwarders_or_default forwarders).0 (forwarders_or_default forwarders).1 ts rows

  -- `init_db`, on a table that there is.
  unfoldable pub init_db : Text → List Row → List Row
  unfolding seed_from_named_options
  init_db ts [] = seed_from_named_options ts []
  init_db ts (r ∷ rows) = r ∷ rows

  abbrev pub new_row : Resolver → Text → List Row → Row
  new_row data' ts rows = record {
    id = fresh_id (λ (r : Row). r.id) rows;
    resolver = data';
    position = next_position rows;
    probe = new_probe data'.enabled;
    created_at = ts;
    updated_at = ts;
  }

  -- The id of the new row, and the table.
  unfoldable pub add_resolver : Form → Text → List Row → Result (ℕ × List Row)
  add_resolver form ts rows0 = do
    values ← validate_resolver py urlparse form
    let rows = init_db ts rows0
    ok (fresh_id (λ (r : Row). r.id) rows, rows ++ new_row values ts rows ∷ [])

  unfoldable pub update_found : ℕ → Resolver → Text → List Row → Result (List Row)
  unfolding would_leave_zero_enabled reset_probe_state
  update_found k values ts rows = do
    raise_if (not (any (λ (r : Row). r.id == k) rows)) not_found
    raise_if (would_leave_zero_enabled k (not values.enabled) rows) last_enabled
    ok (
        reset_probe_state k values.enabled
          (change_row k (λ (r : Row). record r { resolver = values; updated_at = ts }) rows))

  unfoldable pub update_resolver : ℕ → Form → Text → List Row → Result (List Row)
  update_resolver k form ts rows = do
    values ← validate_resolver py urlparse form
    update_found k values ts (init_db ts rows)

  unfoldable pub delete_found : ℕ → List Row → Result (List Row)
  unfolding would_leave_zero_enabled renumber
  delete_found k rows = do
    raise_if
        (would_leave_zero_enabled k (is_enabled (first_of (keep (λ (r : Row). r.id == k) rows)))
          rows)
        last_enabled
    ok (renumber (keep (λ (r : Row). not (r.id == k)) rows))

  unfoldable pub delete_resolver : ℕ → Text → List Row → Result (List Row)
  delete_resolver k ts rows = delete_found k (init_db ts rows)

  unfoldable pub switch_found : ℕ → Bool → Text → List Row → Result (List Row)
  unfolding would_leave_zero_enabled reset_probe_state
  switch_found k enabled ts rows = do
    raise_if (would_leave_zero_enabled k (not enabled) rows) last_enabled
    ok (
        reset_probe_state k enabled (
          change_row k
            (λ (r : Row). record r {
              resolver = record r.resolver { enabled = enabled };
              updated_at = ts;
            })
            rows))

  unfoldable pub set_enabled : ℕ → Bool → Text → List Row → Result (List Row)
  set_enabled k enabled ts rows = switch_found k enabled ts (init_db ts rows)

  unfoldable pub move_found : ℕ → Text → List Row → Result (List Row)
  unfolding reorder swapped
  move_found k direction rows = do
    let ids = map (λ (r : Row). r.id) (resolvers rows)
    idx ← or_raise (index_of k ids) not_found
    ok (reorder rows (swapped k direction idx ids))

  unfoldable pub move_resolver : ℕ → Text → Text → List Row → Result (List Row)
  move_resolver k direction ts rows = move_found k direction (init_db ts rows)
