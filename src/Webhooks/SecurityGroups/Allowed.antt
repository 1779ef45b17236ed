-- ===== src/Webhooks/SecurityGroups/Allowed.antt =====
-- The rules that a security group may have, in words of their own, and that the validator accepts
-- these (controllers/webhooks/networking/security_groups/validator.go).
use korifi.Base.{
  ℕ, ◌≤◌, String, ◌≡◌, ◌≢◌, refl, ap, ◌∙◌, List, [], ◌∷◌, Bool, true, ◌&&◌, Option, none, some, ◌⊎◌,
  inl, inr, ◌↔◌, arith, eq_iff, length, all, All, split_on, Bool-cases,
}
use korifi.Base.Int.{ℤ, pos, negsuc, int_eqb}
use korifi.Webhooks.SecurityGroups.{
  Rule, Parsers, is_port, is_valid_port, is_range, is_wide, range_error, first_error,
  validate_rule_ports, validate_rule_icmp, validate_rule_destination, destinations_error,
  rule_error,
}

zero_iff : (z : ℤ) → (int_eqb z (pos 0) ≡ true) ↔ (z ≡ pos 0)
zero_iff (pos n) = ground arith
zero_iff (negsuc n) = (λ h. cc, λ h. cc)

both : (a b : Bool) → ((a && b) ≡ true) ↔ ((a ≡ true) × (b ≡ true))
both a b = ground arith

first_error_iff : (d e : Option String) → (first_error d e ≡ none) ↔ ((d ≡ none) × (e ≡ none))
first_error_iff none e = (λ h. (refl, h), λ h. h.1)
first_error_iff (some x) e = (λ h. cc, λ h. cc (h.0))

-- ICMP has a type and a code, the other protocols have none.
unfoldable pub IcmpFits : ℤ → ℤ → String → Type 0
IcmpFits icmp_type icmp_code protocol =
    (protocol ≡ "icmp") ⊎ (protocol ≡ "icmpv6") ⊎ ((icmp_type ≡ pos 0) × (icmp_code ≡ pos 0))

icmp_iff :
    (t c : ℤ) (protocol : String) → (validate_rule_icmp t c protocol ≡ none) ↔ IcmpFits t c protocol
unfolding validate_rule_icmp IcmpFits
icmp_iff t c protocol =
    ground (arith, eq_iff protocol "icmp", eq_iff protocol "icmpv6", zero_iff t, zero_iff c)

module _ (parsers : Parsers) where
  open parsers use {parse_ip4, parse_cidr4, atoi, trim_space}

  -- A decimal text for a port of 1 to 65535.
  pub IsPort : String → Type 0
  IsPort s = (n : ℕ) × (atoi s ≡ some (pos n)) × (1 ≤ n) × (n ≤ 65535)

  is_port_iff :
      (o : Option ℤ)
      → (is_port parsers o ≡ true) ↔ ((n : ℕ) × (o ≡ some (pos n)) × (1 ≤ n) × (n ≤ 65535))
  is_port_iff none = (λ h. cc, λ x. cc (x.1))
  is_port_iff (some (pos n)) =
      (λ h. (n, refl, ground arith, ground arith), λ (m, h, low, high). ground arith)
  is_port_iff (some (negsuc n)) = (λ h. cc, λ x. cc (x.1))

  pub valid_iff : (s : String) → (is_valid_port parsers s ≡ true) ↔ IsPort s
  unfolding is_valid_port IsPort
  valid_iff s = is_port_iff (atoi s)

  pub all_iff : (ss : List String) → (all (is_valid_port parsers) ss ≡ true) ↔ All IsPort ss
  all_iff [] = (λ h. tt, λ h. refl)
  all_iff (s ∷ ss) =
      let (split, join) = both (is_valid_port parsers s) (all (is_valid_port parsers) ss) in
      (
        λ h. ((valid_iff s).0 (split h).0, (all_iff ss).0 (split h).1),
        λ (first, rest). join ((valid_iff s).1 first, (all_iff ss).1 rest),
      )

  -- Two ports, with nothing else.
  unfoldable pub TwoPorts : List String → Type 0
  TwoPorts ss = (a b : String) × (ss ≡ a ∷ b ∷ []) × IsPort a × IsPort b

  range_iff : (ss : List String) → (is_range parsers ss ≡ true) ↔ TwoPorts ss
  unfolding TwoPorts
  range_iff [] = (λ h. cc, λ x. cc (x.2))
  range_iff (x ∷ []) = (λ h. cc, λ x. cc (x.2))
  range_iff (x ∷ y ∷ []) =
      let (split, join) = both (is_valid_port parsers x) (is_valid_port parsers y) in
      (
        λ h. (x, y, refl, (valid_iff x).0 (split h).0, (valid_iff y).0 (split h).1),
        λ (a, b, h, is_a, is_b).
            let at_x : x ≡ a = cc in
            let at_y : y ≡ b = cc in
            join (
              ap (is_valid_port parsers) at_x ∙ (valid_iff a).1 is_a,
              ap (is_valid_port parsers) at_y ∙ (valid_iff b).1 is_b,
            ),
      )
  range_iff (x ∷ y ∷ z ∷ ss) = (λ h. cc, λ x. cc (x.2))

  -- A range of two ports, or ports separated by commas; never dashes and commas together.
  unfoldable pub IsPorts : String → Type 0
  IsPorts ports =
      (ports ≢ "")
      × ((length (split_on b'-' ports) ≤ 1) ⊎ (length (split_on b',' ports) ≤ 1))
      × (TwoPorts (split_on b'-' ports) ⊎ All IsPort (split_on b',' ports))

  -- No ports for all protocols, ports for TCP and UDP, and anything for another protocol.
  unfoldable pub PortsFit : String → String → Type 0
  PortsFit ports protocol =
      ((protocol ≡ "all") × (ports ≡ ""))
      ⊎ (((protocol ≡ "tcp") ⊎ (protocol ≡ "udp")) × IsPorts ports)
      ⊎ ((protocol ≢ "all") × (protocol ≢ "tcp") × (protocol ≢ "udp"))

  ports_iff :
      (ports protocol : String)
      → (validate_rule_ports parsers ports protocol ≡ none) ↔ PortsFit ports protocol
  unfolding validate_rule_ports PortsFit IsPorts
  ports_iff ports protocol = ground (
    arith,
    eq_iff protocol "all",
    eq_iff protocol "tcp",
    eq_iff protocol "udp",
    eq_iff ports "",
    eq_iff "all" "tcp",
    eq_iff "all" "udp",
    range_iff (split_on b'-' ports),
    all_iff (split_on b',' ports),
  )

  -- An IPv4 address, a block of them that is not the whole space, or a range of two.
  unfoldable pub IsNetwork : String → Type 0
  IsNetwork d =
      (parse_ip4 d ≡ true)
      ⊎ ((ones : ℕ) × (parse_cidr4 d ≡ some ones) × (1 ≤ ones) × (ones ≤ 32))
      ⊎ ((a b : String) × (split_on b'-' d ≡ a ∷ b ∷ [])
          × (parse_ip4 a ≡ true)
          × (parse_ip4 b ≡ true))

  is_wide_iff :
      (o : Option ℕ) → (is_wide parsers o ≡ true) ↔ ((n : ℕ) × (o ≡ some n) × (1 ≤ n) × (n ≤ 32))
  is_wide_iff none = (λ h. cc, λ x. cc (x.1))
  is_wide_iff (some n) =
      (λ h. (n, refl, ground arith, ground arith), λ (m, h, low, high). ground arith)

  range_error_iff :
      (ss : List String)
      → (range_error parsers ss ≡ none)
        ↔ ((a b : String) × (ss ≡ a ∷ b ∷ []) × (parse_ip4 a ≡ true) × (parse_ip4 b ≡ true))
  range_error_iff [] = (λ h. cc, λ x. cc (x.2))
  range_error_iff (x ∷ []) = (λ h. cc, λ x. cc (x.2))
  range_error_iff (x ∷ y ∷ []) = (
    λ h. (x, y, refl, ground arith, ground arith),
    λ (a, b, h, is_a, is_b).
        let at_x : x ≡ a = cc in
        let at_y : y ≡ b = cc in
        let left : parse_ip4 x ≡ true = ap parse_ip4 at_x ∙ is_a in
        let right : parse_ip4 y ≡ true = ap parse_ip4 at_y ∙ is_b in rw (left, right) refl,
  )
  range_error_iff (x ∷ y ∷ z ∷ ss) = (λ h. cc, λ x. cc (x.2))

  destination_iff : (d : String) → (validate_rule_destination parsers d ≡ none) ↔ IsNetwork d
  unfolding validate_rule_destination IsNetwork
  destination_iff d =
      let (wide, is_wide') = is_wide_iff (parse_cidr4 d) in
      let (range, is_range') = range_error_iff (split_on b'-' d) in
      elim (Bool-cases (parse_ip4 d)) [
        | inl ip ↦ rw ip (λ h. inl refl, λ h. refl)
        | inr other ↦ elim (Bool-cases (is_wide parsers (parse_cidr4 d))) [
          | inl block ↦ rw (other, block) (λ h. inr (inl (wide block)), λ h. refl)
          | inr narrow ↦
              rw (other, narrow)
                (
                  λ h. inr (inr (range h)),
                  λ h. elim h [
                    | inl ip ↦ cc
                    | inr (inl block) ↦ cc (is_wide' block)
                    | inr (inr two) ↦ is_range' two
                  ],
                )
        ]
      ]

  destinations_iff :
      (ds : List String)
      → (destinations_error parsers ds ≡ none) ↔ All (λ d. IsNetwork (trim_space d)) ds
  unfolding destinations_error
  destinations_iff [] = (λ h. tt, λ h. refl)
  destinations_iff (d ∷ ds) =
      let (split, join) =
        first_error_iff (validate_rule_destination parsers (trim_space d))
          (destinations_error parsers ds) in
      let one = destination_iff (trim_space d) in
      let more = destinations_iff ds in
      (
        λ h. (one.0 (split h).0, more.0 (split h).1),
        λ (first, rest). join (one.1 first, more.1 rest),
      )

  -- What a rule may be: where it leads, and its ports, type and code by its protocol.
  unfoldable pub Allowed : Rule → Type 0
  Allowed rule =
      All (λ d. IsNetwork (trim_space d)) (split_on b',' rule.destination)
      × PortsFit rule.ports rule.protocol
      × IcmpFits rule.icmp_type rule.icmp_code rule.protocol

  pub rule_error_iff : (rule : Rule) → (rule_error parsers rule ≡ none) ↔ Allowed rule
  unfolding rule_error Allowed
  rule_error_iff rule =
      let ds = destinations_iff (split_on b',' rule.destination) in
      let ps = ports_iff rule.ports rule.protocol in
      let cs = icmp_iff rule.icmp_type rule.icmp_code rule.protocol in
      let (split, join) = first_error_iff (destinations_error parsers _) _ in
      let (split', join') =
        first_error_iff (validate_rule_ports parsers rule.ports rule.protocol)
          (validate_rule_icmp rule.icmp_type rule.icmp_code rule.protocol) in
      (
        λ h. let (d, rest) = split h in let (p, c) = split' rest in (ds.0 d, ps.0 p, cs.0 c),
        λ (d, p, c). join (ds.1 d, join' (ps.1 p, cs.1 c)),
      )
