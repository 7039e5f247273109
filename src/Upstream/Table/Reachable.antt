-- ===== src/Upstream/Table/Reachable.antt =====
-- The tables that operations and recorded probes make.
use alderpoint_dns.Base.{
  ℕ, suc, Text, Bool, true, not, Option, none, some, List, [], ◌∷◌, ◌++◌, map, any, keep,
  Bool-cases, inl, inr, ◌≢◌, ◌==◌, ◌≡◌, refl, subst, arith,
}
use alderpoint_dns.Base.Results.{
  error, ok, ◌>>=◌, or_raise, Returns, Returns-bind, Returns-raise_if,
}
use alderpoint_dns.Base.Tables.{any-keep_to, fresh_id}
use alderpoint_dns.Platform.{Platform}
use alderpoint_dns.Upstream.Types.{Form, Resolver, Row, Result, Url, not_found, last_enabled}
use alderpoint_dns.Upstream.Validate.{normalize_host, validate_resolver}
use alderpoint_dns.Upstream.Table.{
  resolvers, enabled_resolvers, would_leave_zero_enabled, swapped, first_of, is_enabled, is_probed,
  is_other, index_of, reorder, count_failure, seed_row, forwarders_or_default, Outcome, succeeded,
  raised, record_probe_result, seed_rows, seed_from_named_options, init_db, new_row, add_resolver,
  update_found, update_resolver, delete_found, delete_resolver, switch_found, set_enabled,
  move_found, move_resolver,
}
use alderpoint_dns.Upstream.Table.Invariant.{
  IsGood, agrees, has_enabled, reset-IsGood, reset-has_enabled, others, keep-IsGood, snoc-IsGood,
  snoc-has_enabled, set_positions-IsGood, set_positions-has_enabled, enabled_resolvers_some,
  has_enabled_some, set_probe-IsGood, set_probe-has_enabled,
}

pub data Operation : Type 0 where
  adds : Form → Operation
  updates : ℕ → Form → Operation
  deletes : ℕ → Operation
  switches : ℕ → Bool → Operation
  moves : ℕ → Text → Operation
  probes : ℕ → Outcome → Operation

-- What holds of a table that a change has made: the invariant, and an enabled row if there was one.
record Keeps (rows rows' : List Row) : Type 0 where
  pub good : IsGood rows'
  pub serving : has_enabled rows ≡ true → has_enabled rows' ≡ true

abbrev Kept : List Row → Result (List Row) → Type 0
Kept rows = Returns (Keeps rows)

module _ (py : Platform) (urlparse : Text → Url) (forwarders : Option (ℕ × List Text))
    (redact : Text → Text) where
  abbrev table_of : ℕ × List Row → Result (List Row)
  table_of (_, rows) = ok rows

  unfoldable pub run : Operation → Text → List Row → Result (List Row)
  run (adds form) ts rows = add_resolver py urlparse forwarders form ts rows >>= table_of
  run (updates k form) ts rows = update_resolver py urlparse forwarders k form ts rows
  run (deletes k) ts rows = delete_resolver py urlparse forwarders k ts rows
  run (switches k enabled) ts rows = set_enabled py urlparse forwarders k enabled ts rows
  run (moves k direction) ts rows = move_resolver py urlparse forwarders k direction ts rows
  run (probes k outcome) ts rows =
      ok (record_probe_result redact k outcome ts (init_db py urlparse forwarders ts rows))

  seed_row-IsGood :
      (idx port : ℕ) (ts : Text) (rows : List Row) (host : Result Text)
      → IsGood rows
      → IsGood (seed_row idx port ts rows host)
  unfolding seed_row agrees
  seed_row-IsGood idx port ts rows (error _) good = good
  seed_row-IsGood idx port ts rows (ok address) good = snoc-IsGood rows _ refl refl good

  seed_rows-IsGood :
      (idx port : ℕ) (servers : List Text) (ts : Text) (rows : List Row)
      → IsGood rows
      → IsGood (seed_rows py urlparse forwarders idx port servers ts rows)
  unfolding seed_rows
  seed_rows-IsGood idx port [] ts rows good = good
  seed_rows-IsGood idx port (server ∷ servers) ts rows good =
      seed_rows-IsGood (suc idx) port servers ts _
        (seed_row-IsGood idx port ts rows (normalize_host py server) good)

  init_db-IsGood :
      (ts : Text) (rows : List Row) → IsGood rows → IsGood (init_db py urlparse forwarders ts rows)
  unfolding init_db seed_from_named_options
  init_db-IsGood ts [] good =
      seed_rows-IsGood 1 (forwarders_or_default forwarders).0 (forwarders_or_default forwarders).1
        ts [] good
  init_db-IsGood ts (r ∷ rows) good = good

  init_db-has_enabled :
      (ts : Text) (rows : List Row)
      → has_enabled rows ≡ true
      → has_enabled (init_db py urlparse forwarders ts rows) ≡ true
  unfolding init_db any
  init_db-has_enabled ts [] h = ground (arith, h)
  init_db-has_enabled ts (r ∷ rows) h = h

  -- What an operation does after `init_db`.
  after_init :
      (ts : Text) (rows : List Row) (m : List Row → Result (List Row))
      → ((rows : List Row) → IsGood rows → Kept rows (m rows))
      → IsGood rows
      → Kept rows (m (init_db py urlparse forwarders ts rows))
  after_init ts rows m step good =
      later (m (init_db py urlparse forwarders ts rows)) (step _ (init_db-IsGood ts rows good))
    where
      later :
          (m : Result (List Row)) → Kept (init_db py urlparse forwarders ts rows) m → Kept rows m
      later (error e) h = tt
      later (ok rows') h = record {
        good = h.good;
        serving = λ w. h.serving (init_db-has_enabled ts rows w);
      }

  update_found-Kept :
      (k : ℕ) (values : Resolver) (ts : Text) (rows : List Row)
      → IsGood rows
      → Kept rows (update_found py urlparse forwarders k values ts rows)
  unfolding update_found
  update_found-Kept k values ts rows good =
      Returns-raise_if (Keeps rows) (not (any (λ (r : Row). r.id == k) rows)) not_found _ (λ _.
        Returns-raise_if (Keeps rows) (would_leave_zero_enabled k (not values.enabled) rows)
          last_enabled _
          (λ w. record {
            good =
                reset-IsGood k values.enabled
                  (λ (r : Row). record r { resolver = values; updated_at = ts }) (λ _. refl)
                  (λ _. refl) rows good;
            serving =
                reset-has_enabled k values.enabled
                  (λ (r : Row). record r { resolver = values; updated_at = ts }) (λ _. refl)
                  (λ _. refl) rows w;
          }))

  switch_found-Kept :
      (k : ℕ) (enabled : Bool) (ts : Text) (rows : List Row)
      → IsGood rows
      → Kept rows (switch_found py urlparse forwarders k enabled ts rows)
  unfolding switch_found
  switch_found-Kept k enabled ts rows good =
      Returns-raise_if (Keeps rows) (would_leave_zero_enabled k (not enabled) rows) last_enabled _
        (λ w. record {
          good = reset-IsGood k enabled switched (λ _. refl) (λ _. refl) rows good;
          serving = reset-has_enabled k enabled switched (λ _. refl) (λ _. refl) rows w;
        })
    where
      switched : Row → Row
      switched r = record r { resolver = record r.resolver { enabled = enabled }; updated_at = ts }

  delete_found-Kept :
      (k : ℕ) (rows : List Row)
      → IsGood rows
      → Kept rows (delete_found py urlparse forwarders k rows)
  unfolding delete_found
  delete_found-Kept k rows good =
      Returns-raise_if (Keeps rows)
        (would_leave_zero_enabled k (is_enabled (first_of (keep (λ (r : Row). r.id == k) rows)))
          rows)
        last_enabled _
        (λ w. record {
          good = set_positions-IsGood 1 _ _ (keep-IsGood has_other_id rows good);
          serving = λ h. set_positions-has_enabled 1 _ _ (
              any-keep_to (is_other k) (λ (r : Row). r.enabled) has_other_id
                (λ r e. ground (arith, e)) rows
                (elim (Bool-cases (is_enabled (first_of (keep (λ (r : Row). r.id == k) rows)))) [
                  | inl e ↦ ground (arith, e, w)
                  | inr e ↦ others k rows good.ids e h
                ]));
        })
    where
      has_other_id : Row → Bool
      has_other_id r = not (r.id == k)

  reorder-Keeps :
      (rows : List Row) (ids : Option (List ℕ)) → IsGood rows → Keeps rows (reorder rows ids)
  unfolding reorder
  reorder-Keeps rows none good = record { good = good; serving = λ h. h }
  reorder-Keeps rows (some ids) good = record {
    good = set_positions-IsGood 1 ids rows good;
    serving = set_positions-has_enabled 1 ids rows;
  }

  move_found-Kept :
      (k : ℕ) (direction : Text) (rows : List Row)
      → IsGood rows
      → Kept rows (move_found py urlparse forwarders k direction rows)
  unfolding move_found
  move_found-Kept k direction rows good =
      Returns-bind (Keeps rows) (or_raise (index_of k ids) not_found) _
        (λ idx _. reorder-Keeps rows (swapped k direction idx ids) good)
    where
      ids : List ℕ
      ids = map (λ (r : Row). r.id) (resolvers rows)

  probe_found-Keeps :
      (k : ℕ) (message ts : Text) (rows : List Row) (found : Option Row)
      → IsGood rows
      → Keeps rows (count_failure redact k message ts rows found)
  unfolding count_failure agrees
  probe_found-Keeps k message ts rows none good = record { good = good; serving = λ h. h }
  probe_found-Keeps k message ts rows (some row) good = record {
    good = set_probe-IsGood k _ rows (ground arith) good;
    serving = set_probe-has_enabled k _ rows;
  }

  record_probe_result-Keeps :
      (k : ℕ) (outcome : Outcome) (ts : Text) (rows : List Row)
      → IsGood rows
      → Keeps rows (record_probe_result redact k outcome ts rows)
  unfolding record_probe_result agrees
  record_probe_result-Keeps k (succeeded latency) ts rows good = record {
    good = set_probe-IsGood k _ rows refl good;
    serving = set_probe-has_enabled k _ rows;
  }
  record_probe_result-Keeps k (raised message) ts rows good =
      probe_found-Keeps k message ts rows (first_of (keep (is_probed k) rows)) good

  add_resolver-Kept :
      (form : Form) (ts : Text) (rows : List Row)
      → IsGood rows
      → Kept rows (add_resolver py urlparse forwarders form ts rows >>= table_of)
  unfolding add_resolver agrees
  add_resolver-Kept form ts rows good = go (validate_resolver py urlparse form)
    where
      initial : List Row
      initial = init_db py urlparse forwarders ts rows

      added : Resolver → List Row
      added values = initial ++ new_row py urlparse forwarders values ts initial ∷ []

      go :
          (m : Result Resolver)
          → Kept rows (
              (m >>= λ values. ok (fresh_id (λ (r : Row). r.id) initial, added values))
              >>= table_of)
      go (error e) = tt
      go (ok values) = record {
        good = snoc-IsGood initial _ refl (ground arith) (init_db-IsGood ts rows good);
        serving = λ h. snoc-has_enabled initial _ (init_db-has_enabled ts rows h);
      }

  run-Kept :
      (op : Operation) (ts : Text) (rows : List Row) → IsGood rows → Kept rows (run op ts rows)
  unfolding run update_resolver delete_resolver set_enabled move_resolver
  run-Kept (adds form) ts rows good = add_resolver-Kept form ts rows good
  run-Kept (updates k form) ts rows good =
      Returns-bind (Keeps rows) (validate_resolver py urlparse form) _ (λ values _.
        after_init ts rows (update_found py urlparse forwarders k values ts)
          (update_found-Kept k values ts) good)
  run-Kept (deletes k) ts rows good =
      after_init ts rows (delete_found py urlparse forwarders k) (delete_found-Kept k) good
  run-Kept (switches k enabled) ts rows good =
      after_init ts rows (switch_found py urlparse forwarders k enabled ts)
        (switch_found-Kept k enabled ts) good
  run-Kept (moves k direction) ts rows good =
      after_init ts rows (move_found py urlparse forwarders k direction)
        (move_found-Kept k direction) good
  run-Kept (probes k outcome) ts rows good =
      after_init ts rows (λ rows. ok (record_probe_result redact k outcome ts rows))
        (record_probe_result-Keeps k outcome ts) good

  -- The tables that operations make of a table. One that raises makes none.
  pub data After (start : List Row) : List Row → Type 0 where
    here : After start start
    after :
        (op : Operation) (ts : Text) (rows rows' : List Row)
        → After start rows
        → run op ts rows ≡ ok rows'
        → After start rows'

  then_Keeps :
      (op : Operation) (ts : Text) (start rows rows' : List Row)
      → Keeps start rows
      → run op ts rows ≡ ok rows'
      → Keeps start rows'
  then_Keeps op ts start rows rows' earlier e = record {
    good = step.good;
    serving = λ h. step.serving (earlier.serving h);
  }
    where
      step : Keeps rows rows'
      step = subst (Kept rows) e (run-Kept op ts rows earlier.good)

  After-Keeps : (start rows : List Row) → IsGood start → After start rows → Keeps start rows
  After-Keeps start _ good here = record { good = good; serving = λ h. h }
  After-Keeps start _ good (after op ts rows rows' before e) =
      then_Keeps op ts start rows rows' (After-Keeps start rows good before) e

  -- In every table that operations and recorded probes make of the empty one, the ids are
  -- distinct, a probe is disabled exactly if its row is, failed from three failures in a row on,
  -- checking before that, and healthy only with none.
  pub After-IsGood : (rows : List Row) → After [] rows → IsGood rows
  After-IsGood rows a = (After-Keeps [] rows (record { ids = tt; probes = tt }) a).good

  -- Once some resolver of a table that operations make of the empty one is enabled, some resolver
  -- is after any further operations and recorded probes.
  pub After-enabled_resolvers :
      (start rows : List Row)
      → After [] start
      → enabled_resolvers start ≢ []
      → After start rows
      → enabled_resolvers rows ≢ []
  After-enabled_resolvers start rows a h b =
      enabled_resolvers_some rows
        ((After-Keeps start rows (After-IsGood start a) b).serving (has_enabled_some start h))
