-- ===== src/Webhooks/SecurityGroups/Rules.antt =====
-- Which security groups the validator accepts.
use korifi.Base.{
  ℕ, suc, ◌+◌, ◌≤◌, String, ◌≡◌, refl, ap, ◌∙◌, List, [], ◌∷◌, ◌++◌, true, false, ◌&&◌, none, some,
  ◌==◌, ◌⊎◌, inl, inr, ◌↔◌, arith, len, length, ltb, all, All, split_on, concat, if◌then◌else◌,
  Bool-cases, Option-cases,
}
use native.Mathlib.Nat.{add-zero, zero-add}
use korifi.Webhooks.SecurityGroups.Allowed.{IsPort, Allowed, valid_iff, all_iff, rule_error_iff}
use korifi.Webhooks.SecurityGroups.{
  Rule, SecurityGroup, Parsers, is_valid_port, is_range, validate_rule_ports, rule_error,
  validate_rules, at_rule, invalid_ports, validate_name, validate_security_group,
}

module _ (parsers : Parsers) where
  open parsers use {atoi, itoa}

  is_range-IsPort : (ss : List String) → is_range parsers ss ≡ true → All (IsPort parsers) ss
  is_range-IsPort [] h = cc
  is_range-IsPort (a ∷ []) h = cc
  is_range-IsPort (a ∷ b ∷ []) h =
      ((valid_iff parsers a).0 (ground arith), ((valid_iff parsers b).0 (ground arith), tt))
  is_range-IsPort (a ∷ b ∷ c ∷ ss) h = cc

  -- The ports that are accepted for TCP or UDP are a text that splits at dashes, or at commas,
  -- into ports of 1 to 65535 alone.
  pub rule_ports_checked :
      (ports protocol : String)
      → (protocol ≡ "tcp") ⊎ (protocol ≡ "udp")
      → validate_rule_ports parsers ports protocol ≡ none
      → (All (IsPort parsers) (split_on b'-' ports)) ⊎ (All (IsPort parsers) (split_on b',' ports))
  unfolding validate_rule_ports
  rule_ports_checked ports protocol which h =
      elim (Bool-cases (is_range parsers (split_on b'-' ports))) [
        | inl range ↦ inl (is_range-IsPort _ range)
        | inr other ↦ inr (
            (all_iff parsers (split_on b',' ports)).0 (elim which [
              | inl tcp ↦ let h' = rw tcp at h in checked h' other
              | inr udp ↦ let h' = rw udp at h in checked h' other
            ]))
      ]
    where
      checked :
          (if ports == ""
              then some (
                  concat
                    ("ports are required for protocols of type TCP and UDP, " ∷ invalid_ports ∷ []))
              else if ltb 1 (length (split_on b'-' ports)) && ltb 1 (length (split_on b',' ports))
              then some invalid_ports
              else if is_range parsers (split_on b'-' ports)
              then none
              else if all (is_valid_port parsers) (split_on b',' ports)
              then none
              else some invalid_ports)
            ≡ none
          → is_range parsers (split_on b'-' ports) ≡ false
          → all (is_valid_port parsers) (split_on b',' ports) ≡ true
      checked h other = ground arith

  -- The rules are accepted exactly when each of them is; otherwise the error is that of the first
  -- rule at fault, under its index.
  validate_rules_iff :
      (i : ℕ) (rules : List Rule)
      → (validate_rules parsers i rules ≡ none) ↔ All (λ rule. rule_error parsers rule ≡ none) rules
  unfolding validate_rules
  validate_rules_iff i [] = (λ h. tt, λ h. refl)
  validate_rules_iff i (rule ∷ rules) =
      let (sound, complete) = validate_rules_iff (suc i) rules in
      elim (Option-cases (rule_error parsers rule)) [
        | inl fine ↦ rw fine (λ h. (refl, sound h), λ (_, h). complete h)
        | inr (e, bad) ↦ rw bad (λ h. cc, λ (h, _). cc)
      ]

  validate_rules_first :
      (i : ℕ) (good rest : List Rule) (rule : Rule) (e : String)
      → All (λ r. rule_error parsers r ≡ none) good
      → rule_error parsers rule ≡ some e
      → validate_rules parsers i (good ++ rule ∷ rest)
        ≡ some (concat ("rules[" ∷ itoa (i + length good) ∷ "]: " ∷ e ∷ []))
  unfolding validate_rules
  validate_rules_first i [] rest rule e fine bad = rw (bad, at_rule, add-zero) refl
  validate_rules_first i (g ∷ good) rest rule e (fine, fines) bad = rw fine (
      validate_rules_first (suc i) good rest rule e fines bad
      ∙ ap (λ n. some (concat ("rules[" ∷ itoa n ∷ "]: " ∷ e ∷ []))) (omega arith))

  name_iff : (name : String) → (validate_name name ≡ none) ↔ ((1 ≤ len name) × (len name ≤ 255))
  unfolding validate_name
  name_iff name = ground arith

  AllAllowed_iff :
      (rules : List Rule)
      → All (λ rule. rule_error parsers rule ≡ none) rules ↔ All (Allowed parsers) rules
  AllAllowed_iff [] = (λ h. tt, λ h. tt)
  AllAllowed_iff (rule ∷ rules) =
      let one = rule_error_iff parsers rule in
      let more = AllAllowed_iff rules in
      (λ (h, t). (one.0 h, more.0 t), λ (h, t). (one.1 h, more.1 t))

  -- A security group is accepted exactly when its name has 1 to 255 bytes and each rule is allowed:
  -- its destinations are IPv4 addresses, blocks with a mask of 1 to 32 bits or ranges of two
  -- addresses; it has no ports for all protocols, and for TCP or UDP a range of two ports of 1 to
  -- 65535 or a list of such ports; and only ICMP has a type and a code other than 0.
  pub security_group_iff :
      (group : SecurityGroup)
      → (validate_security_group parsers group ≡ none) ↔ (
          (1 ≤ len group.display_name)
          × (len group.display_name ≤ 255)
          × All (Allowed parsers) group.rules)
  unfolding validate_security_group
  security_group_iff group =
      let (named, unnamed) = name_iff group.display_name in
      let (sound', complete') = validate_rules_iff 0 group.rules in
      let (allowed, fine') = AllAllowed_iff group.rules in
      let sound = λ (h : validate_rules parsers 0 group.rules ≡ none). allowed (sound' h) in
      let complete = λ (h : All (Allowed parsers) group.rules). complete' (fine' h) in
      elim (Option-cases (validate_name group.display_name)) [
        | inl fine ↦
            let (low, high) = named fine in
            elim (Option-cases (validate_rules parsers 0 group.rules)) [
              | inl good ↦ rw (fine, good) (λ h. (low, high, sound good), λ h. refl)
              | inr (e, bad) ↦ rw (fine, bad) (λ h. cc, λ (_, _, h). cc (bad, complete h))
            ]
        | inr (e, bad) ↦ rw bad (λ h. cc, λ (l, u, _). cc (bad, unnamed (l, u)))
      ]

  -- Where the name has 1 to 255 bytes, the error of a group is that of its first rule at fault.
  pub security_group_first :
      (group : SecurityGroup) (good rest : List Rule) (rule : Rule) (e : String)
      → 1 ≤ len group.display_name
      → len group.display_name ≤ 255
      → group.rules ≡ good ++ rule ∷ rest
      → All (λ r. rule_error parsers r ≡ none) good
      → rule_error parsers rule ≡ some e
      → validate_security_group parsers group
        ≡ some (record {
          error_type = "InvalidSecurityGroupRuleError";
          message = concat ("rules[" ∷ itoa (length good) ∷ "]: " ∷ e ∷ []);
        })
  unfolding validate_security_group
  security_group_first group good rest rule e low high split fine bad =
      let first = validate_rules_first 0 good rest rule e fine bad in
      let named = (name_iff group.display_name).1 (low, high) in
      rw (named, split, first, zero-add) refl
