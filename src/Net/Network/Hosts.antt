-- ===== src/Net/Network/Hosts.antt =====
-- The network of one address: its text with the full length of prefix.
use alderpoint_dns.Base.{
  ℕ, Text, codes, Bool, true, false, Option, none, some, List, [], ◌∷◌, ◌++◌, any, ◌==◌,
  if◌then◌else◌, ◌≡◌, refl, ◌∙◌, ap, arith, if_ind, ◌||◌, length,
}
use alderpoint_dns.Base.Str.{mem_char, partition, split}
use alderpoint_dns.Net.{
  Address, ◌>>=◌, address_of, parse_groups, v4, v6, parse_v4, parse_v6, ip_address,
}
use alderpoint_dns.Net.Network.{
  Network, masked, prefix_of, v4_prefix, v6_prefix, clear_host, v4_network, v6_network,
  either_network, network_parts, ip_network,
}

split_none :
    (s : Text)
    → mem_char b'/' s ≡ false
    → (t : Text) → split b'/' (s ++ b'/' ∷ t) ≡ s ∷ split b'/' t
unfolding split mem_char any
split_none [] h t = refl
split_none (c ∷ s) h t = rw (split_none s (ground (arith, h)) t) (ground (arith, h))

masked_full : (n : ℕ) → masked 32 32 n ≡ n
masked_full n = omega arith

masked_full_6 : (n : ℕ) → masked 128 128 n ≡ n
masked_full_6 n = omega arith

abbrev is_four : Option Address → Bool
is_four none = false
is_four (some (v4 _)) = true
is_four (some (v6 _ _ _)) = false

address_of-six : (gs : List ℕ) (scope : Option Text) → is_four (address_of gs scope) ≡ false
unfolding address_of
address_of-six [] scope = refl
address_of-six (g ∷ gs) scope = refl

bind_six :
    (m : Option (List ℕ)) (scope : Option Text) → is_four (m >>= λ gs. address_of gs scope) ≡ false
bind_six none scope = refl
bind_six (some gs) scope = address_of-six gs scope

parse_v6-six : (v : Text) → is_four (parse_v6 v) ≡ false
unfolding parse_v6
parse_v6-six v =
    let parts = partition b'%' v in
    if_ind (λ o. is_four o ≡ false) parts.1
      (λ _.
        if_ind (λ o. is_four o ≡ false) (length parts.2 == 0 || mem_char b'%' parts.2) (λ _. refl)
          (λ _. bind_six (parse_groups parts.0) (some parts.2)))
      (λ _. bind_six (parse_groups parts.0) none)

-- What `ip_address` reads has no slash, and is read as the one or as the other.
v4_read :
    (v : Text) (n : ℕ)
    → ip_address v ≡ some (v4 n)
    → (mem_char b'/' v ≡ false) × (parse_v4 v ≡ some n)
unfolding ip_address
v4_read v n h = go (mem_char b'/' v) (parse_v4 v) (parse_v6 v) (parse_v6-six v) h
  where
    go :
        (b : Bool) (o : Option ℕ) (x : Option Address)
        → is_four x ≡ false
        → (if b then none else elim o as (λ _. Option Address) [ some m ↦ some (v4 m) | none ↦ x ])
          ≡ some (v4 n)
        → (b ≡ false) × (o ≡ some n)
    go true o x f e = ground (arith, e)
    go false (some m) x f e = ground (arith, e)
    go false none none f e = ground (arith, e)
    go false none (some (v4 m)) f e = ground (arith, f)
    go false none (some (v6 g gs t)) f e = ground (arith, e)

v6_read :
    (v : Text) (g : ℕ) (gs : List ℕ) (s : Option Text)
    → ip_address v ≡ some (v6 g gs s)
    → (mem_char b'/' v ≡ false) × ((parse_v4 v ≡ none) × (parse_v6 v ≡ some (v6 g gs s)))
unfolding ip_address
v6_read v g gs s h = go (mem_char b'/' v) (parse_v4 v) (parse_v6 v) h
  where
    go :
        (b : Bool) (o : Option ℕ) (x : Option Address)
        → (if b then none else elim o as (λ _. Option Address) [ some m ↦ some (v4 m) | none ↦ x ])
          ≡ some (v6 g gs s)
        → (b ≡ false) × ((o ≡ none) × (x ≡ some (v6 g gs s)))
    go true o x e = ground (arith, e)
    go false (some m) x e = ground (arith, e)
    go false none x e = (refl, (refl, e))

pub ip_network_32 :
    (v : Text) (n : ℕ)
    → ip_address v ≡ some (v4 n)
    → ip_network (v ++ codes "/32") ≡ some (record { address = v4 (masked 32 32 n); prefix = 32 })
unfolding ip_network network_parts either_network v4_network clear_host v4_prefix prefix_of split
ip_network_32 v n h =
    let r = v4_read v n h in
    ap network_parts (split_none v r.0 (codes "32"))
    ∙ ap
        (λ (o : Option ℕ). elim (o >>= λ m. some (clear_host 32 (v4 m))) as (λ _. Option Network) [
          | some net ↦ some net
          | none ↦ v6_network v (some (codes "32"))
        ])
        r.1

pub ip_network_128 :
    (v : Text) (g : ℕ) (gs : List ℕ) (s : Option Text)
    → ip_address v ≡ some (v6 g gs s)
    → ip_network (v ++ codes "/128") ≡ some (clear_host 128 (v6 g gs s))
unfolding ip_network network_parts either_network v4_network v6_network v6_prefix prefix_of split
ip_network_128 v g gs s h =
    let r = v6_read v g gs s h in
    ap network_parts (split_none v r.0 (codes "128"))
    ∙ ap
        (λ (o : Option ℕ).
          elim (o >>= λ m. (v4_prefix (some (codes "128")) >>= λ p. some (clear_host p (v4 m))))
            as (λ _. Option Network) [
              | some net ↦ some net
              | none ↦ v6_network v (some (codes "128"))
            ])
        r.1.0
    ∙ ap (λ (o : Option Address). (o >>= λ a. some (clear_host 128 a))) r.1.1
