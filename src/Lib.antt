-- ===== src/Lib.antt =====
-- Alderpoint DNS is a filtering DNS appliance: a panel keeps rules, clients, resolvers and settings in
-- a database, a compiler turns them into a response policy zone for BIND and into data for dnsdist.
-- This library models the code that decides what is blocked, who is served, and by which resolvers.
--
-- Base      lists, options, results of code that raises, tables as lists of rows, texts as lists of
--           code points, Python's str methods, dictionaries in the order of insertion
-- Platform  what the program takes from Python: tables of Unicode, the idna codec, the engine of re
-- Net       ipaddress.ip_address, ip_network and the text of an address, as Python 3.11 has them
-- Domain    app/alderpointdns_compiler.py: normalize_domain and _looks_like_ip_literal
-- Clients   app/clients.py:
--   Types        the tables
--   Identifiers  normalize_identifier, validate_clientid
--   Labels       clientid_dns_label and clientid_from_dns_label, with base 32
--   Store        the operations, from create_client to remove_access_rule, with init_db before each
--   Access       evaluate_access and effective_access_for_client
--   Enforcement  render_access_data, and the rules that render_access_lua makes dnsdist add
-- Upstream  app/upstream_dns.py:
--   Validate     validate_resolver and the normalisation of its fields
--   Table        the operations on upstream_resolvers, the seeding, record_probe_result
-- Sources   app/alderpointdns_compiler.py, the lists that are downloaded:
--   Line         parse_source_line, with its fast path and the parser of Rules.Parse
--   Count        parse_rule_lines: the sets and the counts of one source
--   Collect      what collect_rules computes from all sources
-- Rules     app/custom_rules.py, in the order in which a rule passes through it:
--   Types      ParsedRule and the rows of custom_filter_rules
--   Regex      _class_end, posix_ere_incompatibility, nested_quantifier_risk, deployed_pattern
--   Parse      parse_rule; a line becomes rules, each valid, unsupported or invalid
--   Evaluate   the choice that evaluate_domain makes among the rules of its best key
--   Active     collect_active and _resolve_conflicts: the active rules as three dictionaries
--   Rpz        rpz_records: the records of the zone
--   Store      the operations on the table custom_filter_rules, from add_rule to rule_counts, and the
--              writes of app/webapp.py and app/importer.py in it
-- Policy    subtract_allowed, render_rpz, how deploy of the compiler joins Sources and Rules, and
--           _rpz_status of app/custom_rules.py
-- Retry     app/db_retry.py: retry_on_locked, for any number of attempts
--
-- An exception of the source is a none or a result of the model; a loop over a text or a list is
-- recursion on it, so no fuel is needed. A text is a list of code points. A dictionary that the
-- source mutates is a list of pairs that a function returns anew; a set is a list with no element
-- twice. A priority is a natural number: the program writes 0 and 100. An operation that raises is
-- rolled back, so it makes no new table.
--
-- Active.Views reads a rule set at one name only. Active.Resolution shows that resolving conflicts
-- acts on each name by itself, Rpz.Emission that the zone does, and Rpz.Agreement compares the two
-- at one name, by cases.
--
-- Rules.Store calls parse_rule for each line; Store.Invariant gives the steps that a table can take and
-- carries Parse.Sound to every row; Store.Deployed puts the two halves together, from the operations to
-- the zone. Store.Adding and Store.Reimport are about the import of whole texts. Sources.Line calls
-- parse_rule too, and Sources.Line.Names uses Parse.Sound.
--
-- Policy.Status models what the panel says of a name in the compiled zone; Policy.Listed is about the
-- names that the sources put there, and Policy.Blocks joins the two. Enforcement.Masks reads the lines of
-- the data files as networks, and Enforcement.Hits compares them with the rules, entry by entry.
--
-- Rules.Store.Outside models what app/webapp.py and app/importer.py write in the table of the custom
-- rules. The sequences of operations on clients and on resolvers are those of app/clients.py and of
-- app/upstream_dns.py: the rollback of a migration in app/importer.py, the rows that app/importer.py and
-- app/replication.py insert, and what the deployment of dnsdist notes of a resolver's last status, write
-- in these tables too and are not modelled. The rollback deletes resolvers without the guard of the last
-- enabled one.
--
-- Parameters: urlparse, of which only the range of its port is used; which addresses a netmask of
-- dnsdist covers; the text that named's options give for `forwarders`; the redaction of a message.
--
-- Not modelled: SQL as such (a table is a list of rows in the order of insertion), reading and writing
-- of files, processes, sockets, HTTP, templates; list_rules and the copy from the legacy table
-- custom_rules; a port that is written in digits other than ASCII ones, which int() would read.
pub mod Base
pub mod Net
pub mod Platform
pub mod Domain
pub mod Clients
pub mod Upstream
pub mod Sources
pub mod Retry
pub mod Rules
pub mod Policy
