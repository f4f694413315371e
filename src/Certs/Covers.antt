-- ===== src/Certs/Covers.antt =====
-- What the certificate of internal/certs/selfsigned.go covers.
use dsh_fleet.Base.{
  ◌≡◌, refl, ◌⊎◌, inl, inr, true, false, not, ◌&&◌, ◌||◌, List, [], ◌∷◌, ◌++◌, Option, none, some,
  arith, if-cases, All, Bool-cases, Option-cases, Bytes, codes, same, same_iff, same_refl,
}
use dsh_fleet.Registry.Online.{contains}
use dsh_fleet.Certs.{add_host, split_hosts, names_of}

contains-append :
    (x : Bytes) (xs ys : List Bytes) → contains x (xs ++ ys) ≡ (contains x xs || contains x ys)
unfolding contains
contains-append x [] ys = refl
contains-append x (y ∷ xs) ys = ground (arith, contains-append x xs ys)

contains-last : (x : Bytes) (xs : List Bytes) → contains x (xs ++ x ∷ []) ≡ true
unfolding contains
contains-last x xs = ground (arith, contains-append x xs (x ∷ []), same_refl x)

-- A host is covered by its address, if it is one, and else by its name.
abbrev pub Covered : (Bytes → Option Bytes) → List Bytes × List Bytes → Bytes → Type 0
Covered parse names host =
    ((ip : Bytes) × (parse host ≡ some ip) × (contains ip names.1 ≡ true))
    ⊎ ((parse host ≡ none) × ((host ≡ []) ⊎ (contains host names.0 ≡ true)))

-- The names and addresses only grow.
Grows : List Bytes × List Bytes → List Bytes × List Bytes → Type 0
Grows a b =
    ((x : Bytes) → contains x a.0 ≡ true → contains x b.0 ≡ true)
    × ((x : Bytes) → contains x a.1 ≡ true → contains x b.1 ≡ true)

module _ (parse : Bytes → Option Bytes) where
  add-Grows :
      (o : Option Bytes) (host : Bytes) (names : List Bytes × List Bytes)
      → Grows names (add_host parse o host names)
  unfolding Grows
  add-Grows (some ip) host (dns, ips) =
      (λ x h. h, λ x h. ground (arith, contains-append x ips (ip ∷ [])))
  add-Grows none host (dns, ips) =
      if-cases (Grows (dns, ips)) (not (same host []) && not (same host (codes "localhost"))) _ _
        (λ t. (λ x h. ground (arith, contains-append x dns (host ∷ [])), λ x h. h))
        λ f. (λ x h. h, λ x h. h)

  split-Grows :
      (hosts : List Bytes) (names : List Bytes × List Bytes)
      → Grows names (split_hosts parse hosts names)
  unfolding Grows split_hosts
  split-Grows [] names = (λ x h. h, λ x h. h)
  split-Grows (host ∷ hosts) names =
      let first = add-Grows (parse host) host names in
      let rest = split-Grows hosts (add_host parse (parse host) host names) in
      (λ x h. rest.0 x (first.0 x h), λ x h. rest.1 x (first.1 x h))

  add-Covered :
      (host : Bytes) (names : List Bytes × List Bytes)
      → contains (codes "localhost") names.0 ≡ true
      → Covered parse (add_host parse (parse host) host names) host
  add-Covered host (dns, ips) l = elim (Option-cases (parse host)) [
    | inr (ip, e) ↦ rw e (inl (ip, refl, contains-last ip ips))
    | inl e ↦ rw e (
        inr (
          refl,
          if-cases
              (λ (names : List Bytes × List Bytes). (host ≡ []) ⊎ (contains host names.0 ≡ true))
              (not (same host []) && not (same host (codes "localhost"))) _ _
              (λ t. inr (contains-last host dns)) λ f. left_out f,
        ))
  ]
    where
      left_out :
          (not (same host []) && not (same host (codes "localhost"))) ≡ false
          → (host ≡ []) ⊎ (contains host dns ≡ true)
      left_out f = elim (Bool-cases (same host [])) [
        | inl t ↦ inl ((same_iff host []).0 t)
        | inr n ↦
            let named : host ≡ codes "localhost" =
              (same_iff host (codes "localhost")).0 (ground arith) in
            inr (rw named l)
      ]

  Covered-Grows :
      (a b : List Bytes × List Bytes) (host : Bytes)
      → Grows a b
      → Covered parse a host
      → Covered parse b host
  unfolding Grows
  Covered-Grows a b host g (inl (ip, e, c)) = inl (ip, e, g.1 ip c)
  Covered-Grows a b host g (inr (e, inl n)) = inr (e, inl n)
  Covered-Grows a b host g (inr (e, inr c)) = inr (e, inr (g.0 host c))

  split-Covered :
      (hosts : List Bytes) (names : List Bytes × List Bytes)
      → contains (codes "localhost") names.0 ≡ true
      → All (Covered parse (split_hosts parse hosts names)) hosts
  unfolding split_hosts
  split-Covered [] names l = tt
  split-Covered (host ∷ hosts) names l =
      let next = add_host parse (parse host) host names in
      (
        Covered-Grows next (split_hosts parse hosts next) host (split-Grows hosts next)
            (add-Covered host names l),
        split-Covered hosts next (still (add-Grows (parse host) host names)),
      )
    where
      still :
          Grows names (add_host parse (parse host) host names)
          → contains (codes "localhost") (add_host parse (parse host) host names).0 ≡ true
      still g = unfold Grows in g.0 (codes "localhost") l

  -- The certificate covers localhost and both loopback addresses, and of the hosts asked for each that is
  -- an address by the address, and every other but an empty one by its name.
  pub names_of-Covered :
      (hosts : List Bytes)
      → All (Covered parse (names_of parse hosts)) hosts
        × (contains (codes "localhost") (names_of parse hosts).0 ≡ true)
        × (contains (codes "127.0.0.1") (names_of parse hosts).1 ≡ true)
        × (contains (codes "::1") (names_of parse hosts).1 ≡ true)
  unfolding names_of contains Grows
  names_of-Covered hosts =
      let start : List Bytes × List Bytes =
        (codes "localhost" ∷ [], codes "127.0.0.1" ∷ codes "::1" ∷ []) in
      let g = split-Grows hosts start in
      (
        split-Covered hosts start refl,
        g.0 (codes "localhost") refl,
        g.1 (codes "127.0.0.1") refl,
        g.1 (codes "::1") refl,
      )
