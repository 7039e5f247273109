-- ===== src/Clients/Enforcement/Masks.antt =====
-- Lines of the netmask files cover what the rules match, for a reader of netmasks that covers the
-- addresses of their networks.
use mathlib.Core.Bool.{false≢true}
use alderpoint_dns.Base.{
  ℕ, ◌+◌, ◌*◌, ◌<◌, Text, codes, Bool, true, false, ◌&&◌, ◌||◌, Option, none, some, List, [], ◌∷◌,
  ◌++◌, All, length, ◌==◌, teq, ◌≡◌, refl, sym, ◌∙◌, ap, arith, if_ind,
}
use alderpoint_dns.Net.{Address, v4, v6, ip_address}
use alderpoint_dns.Net.Network.{
  Network, from_groups, number_of, masked, clear_host, ip_network, contains,
}
use alderpoint_dns.Net.Network.Hosts.{ip_network_32, ip_network_128}
use alderpoint_dns.Clients.Types.{Kind, ipv4, ipv6, clientid}
use alderpoint_dns.Clients.Enforcement.{is_loopback}
use alderpoint_dns.Clients.Access.{same_address, is_within, rule_matches_ip}

-- The eight groups of an address without a scope.
abbrev pub IsGroups : List ℕ → Type 0
IsGroups gs = (length gs ≡ 7) × All (λ g. g < 65536) gs

-- An address as it stands in a query: an IPv6 address has eight groups and no scope.
abbrev pub IsSource : Address → Type 0
IsSource (v4 n) = Unit
IsSource (v6 g gs s) = (s ≡ none) × IsGroups gs

-- A value of a kind, as `normalize_identifier` leaves it.
abbrev pub IsValueOf : Kind → Text → Type 0
IsValueOf ipv4 v = ((n : ℕ) × (ip_address v ≡ some (v4 n)))
IsValueOf ipv6 v =
    ((g : ℕ) × ((gs : List ℕ) × ((ip_address v ≡ some (v6 g gs none)) × IsGroups gs)))
IsValueOf clientid v = Unit
IsValueOf _ v = ((net : Network) × (ip_network v ≡ some net))

contains_32 :
    (n : ℕ) (a : Address)
    → contains (record { address = v4 (masked 32 32 n); prefix = 32 }) a ≡ same_address (v4 n) a
unfolding contains
contains_32 n (v4 m) = ground arith
contains_32 n (v6 h hs s) = refl

from_groups-eq :
    (n m : ℕ) (gs hs : List ℕ)
    → length gs ≡ length hs
    → All (λ g. g < 65536) gs
    → All (λ h. h < 65536) hs
    → (from_groups m hs == from_groups n gs) ≡ (n == m && teq gs hs)
unfolding from_groups teq
from_groups-eq n m [] [] e a b = ground arith
from_groups-eq n m [] (h ∷ hs) e a b = ground (arith, e)
from_groups-eq n m (g ∷ gs) [] e a b = ground (arith, e)
from_groups-eq n m (g ∷ gs) (h ∷ hs) e a b =
    from_groups-eq (n * 65536 + g) (m * 65536 + h) gs hs (omega (arith, e)) a.1 b.1
    ∙ ground (arith, a.0, b.0)

-- A prefix of full length clears nothing.
clear_host_128 :
    (g : ℕ) (gs : List ℕ)
    → clear_host 128 (v6 g gs none) ≡ record { address = v6 g gs none; prefix = 128 }
unfolding clear_host number_of
clear_host_128 g gs =
    if_ind (λ (net : Network). net ≡ record { address = v6 g gs none; prefix = 128 })
      (masked 128 128 (from_groups g gs) == from_groups g gs) (λ _. refl)
      (λ e. absurd (false≢true (sym (differs (from_groups g gs) e))))
  where
    differs : (n : ℕ) → (masked 128 128 n == n) ≡ false → true ≡ false
    differs n e = ground (arith, e)

contains_128 :
    (g : ℕ) (gs : List ℕ) (a : Address)
    → IsGroups gs
    → IsSource a
    → contains (record { address = v6 g gs none; prefix = 128 }) a ≡ same_address (v6 g gs none) a
unfolding contains number_of
contains_128 g gs (v4 m) r s = refl
contains_128 g gs (v6 h hs (some t)) r s = ground (arith, s.0)
contains_128 g gs (v6 h hs none) r s =
    ap (λ n. n == from_groups g gs) (masked_full (from_groups h hs))
    ∙ from_groups-eq g h gs hs (omega (arith, r.0, s.1.0)) r.1 s.1.1
    ∙ ground arith
  where
    masked_full : (n : ℕ) → masked 128 128 n ≡ n
    masked_full n = omega arith

-- 127.0.0.1 and ::1.
abbrev pub is_local : Address → Bool
is_local a =
    same_address (v4 2130706433) a || same_address (v6 0 (0 ∷ 0 ∷ 0 ∷ 0 ∷ 0 ∷ 0 ∷ 1 ∷ []) none) a

-- The netmasks of dnsdist, of a text that is a network.
abbrev pub Reads : (Text → Address → Bool) → Address → Type 0
Reads covers a = (m : Text) (net : Network) → ip_network m ≡ some net → covers m a ≡ contains net a

read_4 : ip_address (codes "127.0.0.1") ≡ some (v4 2130706433)
unfolding ip_address
read_4 = refl

read_6 : ip_address (codes "::1") ≡ some (v6 0 (0 ∷ 0 ∷ 0 ∷ 0 ∷ 0 ∷ 0 ∷ 1 ∷ []) none)
unfolding ip_address
read_6 = refl

module _ (covers : Text → Address → Bool) (a : Address) (reads : Reads covers a)
    (source : IsSource a) where
  pub covers_32 :
      (v : Text) (n : ℕ)
      → ip_address v ≡ some (v4 n)
      → covers (v ++ codes "/32") a ≡ same_address (v4 n) a
  covers_32 v n e = reads (v ++ codes "/32") _ (ip_network_32 v n e) ∙ contains_32 n a

  pub covers_128 :
      (v : Text) (g : ℕ) (gs : List ℕ)
      → ip_address v ≡ some (v6 g gs none)
      → IsGroups gs
      → covers (v ++ codes "/128") a ≡ same_address (v6 g gs none) a
  covers_128 v g gs e r =
      reads (v ++ codes "/128") _ (ip_network_128 v g gs none e)
      ∙ ap (λ (net : Network). contains net a) (clear_host_128 g gs)
      ∙ contains_128 g gs a r source

  abbrev matching : Option Address → Bool
  matching none = false
  matching (some b) = same_address b a

  abbrev within : Option Network → Bool
  within none = false
  within (some net) = contains net a

  -- What a line covers is what its rule matches.
  pub covers_value_4 :
      (v : Text) → IsValueOf ipv4 v → covers (v ++ codes "/32") a ≡ rule_matches_ip ipv4 v a
  unfolding rule_matches_ip
  covers_value_4 v (n, e) = covers_32 v n e ∙ ap matching (sym e)

  pub covers_value_6 :
      (v : Text) → IsValueOf ipv6 v → covers (v ++ codes "/128") a ≡ rule_matches_ip ipv6 v a
  unfolding rule_matches_ip
  covers_value_6 v (g, (gs, (e, r))) = covers_128 v g gs e r ∙ ap matching (sym e)

  pub covers_network :
      (v : Text) (net : Network) → ip_network v ≡ some net → covers v a ≡ is_within v a
  covers_network v net e = reads v net e ∙ ap within (sym e)

  pub is_loopback_local : is_loopback covers a ≡ is_local a
  is_loopback_local =
      rw
        (
          covers_32 (codes "127.0.0.1") 2130706433 read_4,
          covers_128 (codes "::1") 0 (0 ∷ 0 ∷ 0 ∷ 0 ∷ 0 ∷ 0 ∷ 1 ∷ []) read_6 (refl, small),
        )
        refl
    where
      small : All (λ g. g < 65536) (0 ∷ 0 ∷ 0 ∷ 0 ∷ 0 ∷ 0 ∷ 1 ∷ [])
      small = (
        omega arith,
        (
          omega arith,
          (omega arith, (omega arith, (omega arith, (omega arith, (omega arith, tt))))),
        ),
      )
