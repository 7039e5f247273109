-- ===== src/Upstream/Ready.antt =====
-- What `validate_resolver` returns is a resolver that dnsdist can be given.
use alderpoint_dns.Base.{
  ℕ, ◌≤◌, Text, codes, true, false, not, ◌&&◌, ◌||◌, Option, none, some, [], length, leb, ◌≡◌, refl,
  ◌∙◌, Bool-cases, inl, inr, arith, teq,
}
use alderpoint_dns.Base.Results.{ok, or_raise, Returns, Returns-bind, Returns-raise_if}
use alderpoint_dns.Base.Str.{strip, starts_with, take}
use alderpoint_dns.Platform.{Platform, lower, upper}
use alderpoint_dns.Net.{is_written}
use alderpoint_dns.Upstream.Types.{
  Protocol, plain, dot, doh, Form, Resolver, Url, bad_protocol, name_required, bad_url,
  url_has_query, url_port, bootstrap_required, bad_doh_path,
}
use alderpoint_dns.Upstream.Validate.{
  is_blank, or_text, given, host_is_ip, normalize_host, normalize_port, normalize_bootstrap,
  Endpoint, default_path, or_443, url_endpoint, host_endpoint, doh_endpoint, other_endpoint,
  endpoint_of, protocol_of, protocol_text, default_port, name_or_host, is_on, validate_resolver,
}
use alderpoint_dns.Upstream.Fields.{
  IsPort, has_fields, IsEndpoint, normalize_host-is_written, normalize_port-IsPort, or_443-IsPort,
  or_text-is_written, take-is_written, length-take, returned, doh_fields,
}

-- A port that there is, a host, a name of at most 120 characters, and what the protocol needs.
pub record IsReady (r : Resolver) : Type 0 where
  pub port : IsPort r.port
  pub address : is_written r.address ≡ true
  pub name : (is_written r.name && leb (length r.name) 120) ≡ true
  pub path : (is_blank r.doh_path || starts_with (codes "/") r.doh_path) ≡ true
  pub fields : has_fields r.protocol r.address r.doh_path r.tls_hostname r.bootstrap_ips ≡ true

module _ (py : Platform) (urlparse : Text → Url) where
  host_endpoint-IsEndpoint :
      (form : Form) → Returns (IsEndpoint doh) (host_endpoint py urlparse form)
  unfolding host_endpoint
  host_endpoint-IsEndpoint form =
      Returns-bind (IsEndpoint doh) (normalize_host py (given form.address)) _ (λ host eh.
        Returns-bind (IsEndpoint doh) (normalize_bootstrap (given form.bootstrap_ips)) _
          (λ bootstrap _.
            Returns-raise_if (IsEndpoint doh) (not (host_is_ip host) && is_blank bootstrap)
              bootstrap_required _
              (λ w. Returns-bind (IsEndpoint doh) (normalize_port form.port 443) _ (λ port ep.
                made host bootstrap port
                  (returned (λ a. is_written a ≡ true) _ host
                    (normalize_host-is_written py (given form.address)) eh)
                  w (returned IsPort _ port (normalize_port-IsPort form.port 443) ep)))))
    where
      made :
          (host bootstrap : Text) (port : ℕ)
          → is_written host ≡ true
          → (not (host_is_ip host) && is_blank bootstrap) ≡ false
          → IsPort port
          → IsEndpoint doh (record {
            address = host;
            port = port;
            doh_path = or_text (strip (given form.doh_path)) default_path;
            tls_hostname = or_text (lower py (strip (given form.tls_hostname))) host;
            bootstrap_ips = bootstrap;
          })
      made host bootstrap port h w p = record {
        port = p;
        address = h;
        fields = doh_fields host _ _ bootstrap h w;
      }

  url_endpoint-IsEndpoint :
      (url : Url) (form : Form)
      → ((n : ℕ) → url.port ≡ some (some n) → n ≤ 65535)
      → Returns (IsEndpoint doh) (url_endpoint py urlparse url form)
  unfolding url_endpoint
  url_endpoint-IsEndpoint url form ports =
      Returns-bind (IsEndpoint doh) (or_raise url.hostname bad_url) _ (λ hostname _.
        Returns-raise_if (IsEndpoint doh)
          (not (teq url.scheme (codes "https")) || is_blank hostname) bad_url _
          (λ _.
            Returns-raise_if (IsEndpoint doh)
              (not (is_blank url.query) || not (is_blank url.fragment)) url_has_query _
              (λ _. Returns-bind (IsEndpoint doh) (normalize_host py hostname) _ (λ host eh.
                Returns-bind (IsEndpoint doh) (or_raise url.port url_port) _ (λ port ep.
                  Returns-bind (IsEndpoint doh) (normalize_bootstrap (given form.bootstrap_ips)) _
                    (λ bootstrap _.
                      Returns-raise_if (IsEndpoint doh)
                        (not (host_is_ip host) && is_blank bootstrap) bootstrap_required _
                        (λ w.
                          made host bootstrap port
                            (returned (λ a. is_written a ≡ true) _ host
                              (normalize_host-is_written py hostname) eh)
                            w
                            (or_443-IsPort port
                              (λ n e. ports n (raised_none url.port port ep ∙ rw e refl))))))))))
    where
      raised_none :
          (p : Option (Option ℕ)) (port : Option ℕ) → or_raise p url_port ≡ ok port → p ≡ some port
      raised_none none port e = ground (arith, e)
      raised_none (some q) port e = ground (arith, e)

      made :
          (host bootstrap : Text) (port : Option ℕ)
          → is_written host ≡ true
          → (not (host_is_ip host) && is_blank bootstrap) ≡ false
          → IsPort (or_443 port)
          → IsEndpoint doh (record {
            address = host;
            port = or_443 port;
            doh_path = or_text url.path default_path;
            tls_hostname = or_text (lower py (strip (given form.tls_hostname))) host;
            bootstrap_ips = bootstrap;
          })
      made host bootstrap port h w p = record {
        port = p;
        address = h;
        fields = doh_fields host _ _ bootstrap h w;
      }

  other_endpoint-IsEndpoint :
      (protocol : Protocol) (form : Form)
      → ((host name bootstrap : Text)
          → is_written host ≡ true
          → has_fields protocol host [] (name_or_host protocol name host) bootstrap ≡ true)
      → Returns (IsEndpoint protocol) (other_endpoint py urlparse protocol form)
  unfolding other_endpoint
  other_endpoint-IsEndpoint protocol form fields =
      Returns-bind (IsEndpoint protocol) (normalize_host py (given form.address)) _ (λ host eh.
        Returns-bind (IsEndpoint protocol) (normalize_port form.port (default_port protocol)) _
          (λ port ep.
            Returns-bind (IsEndpoint protocol) (normalize_bootstrap (given form.bootstrap_ips)) _
              (λ bootstrap _.
                made host bootstrap port
                  (returned (λ a. is_written a ≡ true) _ host
                    (normalize_host-is_written py (given form.address)) eh)
                  (returned IsPort _ port (normalize_port-IsPort form.port (default_port protocol))
                    ep))))
    where
      made :
          (host bootstrap : Text) (port : ℕ)
          → is_written host ≡ true
          → IsPort port
          → IsEndpoint protocol (record {
            address = host;
            port = port;
            doh_path = [];
            tls_hostname = name_or_host protocol (lower py (strip (given form.tls_hostname))) host;
            bootstrap_ips = bootstrap;
          })
      made host bootstrap port h p = record {
        port = p;
        address = h;
        fields = fields host _ bootstrap h;
      }

  module _ (ports : (s : Text) (n : ℕ) → (urlparse s).port ≡ some (some n) → n ≤ 65535) where
    endpoint_of-IsEndpoint :
        (protocol : Protocol) (form : Form)
        → Returns (IsEndpoint protocol) (endpoint_of py urlparse protocol form)
    unfolding endpoint_of doh_endpoint
    endpoint_of-IsEndpoint plain form =
        other_endpoint-IsEndpoint plain form (λ host name bootstrap h. refl)
    endpoint_of-IsEndpoint dot form =
        other_endpoint-IsEndpoint dot form (λ host name bootstrap h. or_text-is_written name host h)
    endpoint_of-IsEndpoint doh form =
        elim (Bool-cases (is_blank (urlparse (strip (given form.address))).scheme)) [
          | inl e ↦ rw e (host_endpoint-IsEndpoint form)
          | inr e ↦ rw e (
              url_endpoint-IsEndpoint (urlparse (strip (given form.address))) form
                (ports (strip (given form.address))))
        ]

    -- If urlparse gives no port above 65535, a resolver that is returned has a port from 1 to
    -- 65535, an address, a name of 1 to 120 characters, a path that is empty or begins with a
    -- slash, and what its protocol needs: for DoT a TLS name, for DoH a TLS name, a path, and an
    -- address that is an IP address or has a bootstrap address.
    pub validate_resolver-IsReady :
        (form : Form) → Returns IsReady (validate_resolver py urlparse form)
    unfolding validate_resolver
    validate_resolver-IsReady form =
        Returns-bind IsReady
          (or_raise (protocol_of py urlparse (protocol_text py urlparse form.protocol))
            bad_protocol)
          _
          (λ protocol _. Returns-raise_if IsReady (is_blank (name_of form)) name_required _ (λ n.
            Returns-bind IsReady (endpoint_of py urlparse protocol form) _ (λ e ee.
              Returns-raise_if IsReady
                (not (is_blank e.doh_path) && not (starts_with (codes "/") e.doh_path)) bad_doh_path
                _
                (ready form protocol e n
                  (returned (IsEndpoint protocol) _ e (endpoint_of-IsEndpoint protocol form) ee)))))
      where
        name_of : Form → Text
        name_of form =
            strip (or_text (given form.name) (upper py (protocol_text py urlparse form.protocol)))

        ready :
            (form : Form) (protocol : Protocol) (e : Endpoint)
            → is_blank (name_of form) ≡ false
            → IsEndpoint protocol e
            → (not (is_blank e.doh_path) && not (starts_with (codes "/") e.doh_path)) ≡ false
            → IsReady (record {
              name = take 120 (name_of form);
              protocol = protocol;
              address = e.address;
              port = e.port;
              doh_path = e.doh_path;
              tls_hostname = e.tls_hostname;
              bootstrap_ips = e.bootstrap_ips;
              enabled = is_on py urlparse form.enabled;
            })
        ready form protocol e n h path = record {
          port = h.port;
          address = h.address;
          name =
              ground (arith, take-is_written 119 (name_of form) n, length-take 120 (name_of form));
          path = ground (arith, path);
          fields = h.fields;
        }
