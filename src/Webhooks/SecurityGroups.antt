-- ===== src/Webhooks/SecurityGroups.antt =====
-- controllers/webhooks/networking/security_groups/validator.go. The functions of Go's `net`,
-- `strings` and `strconv` that it calls on addresses and ports are the record `Parsers`.
pub mod Allowed
pub mod Rules
use korifi.Base.{
  ℕ, suc, String, List, [], ◌∷◌, Bool, true, false, not, ◌&&◌, ◌||◌, Option, none, some, ◌==◌, eqb,
  leb, ltb, len, length, get_elem?, all, split_on, concat, if◌then◌else◌,
}
use korifi.Base.Int.{ℤ, pos, negsuc, int_eqb}
use korifi.Validation.{UniqueObject, ValidationError}
use korifi.Names.Interface.{Context, NameRegistry}
use korifi.Names.Duplicate

pub record Rule : Type 0 where
  pub protocol : String
  pub destination : String
  pub ports : String
  pub icmp_type : ℤ
  pub icmp_code : ℤ

pub record SecurityGroup : Type 0 where
  pub namespace : String
  pub name : String
  pub is_deleting : Bool
  pub display_name : String
  pub rules : List Rule

-- `parse_ip4 s`: whether `net.ParseIP` reads `s` and `To4` gives an address. `parse_cidr4 s`: the
-- leading ones of the mask, where `net.ParseCIDR` reads `s` and `To4` gives an address. `atoi`:
-- the value that `strconv.Atoi` reads.
pub record Parsers : Type 0 where
  pub parse_ip4 : String → Bool
  pub parse_cidr4 : String → Option ℕ
  pub atoi : String → Option ℤ
  pub trim_space : String → String
  pub to_lower : String → String
  pub itoa : ℕ → String

abbrev pub invalid_ports : String
invalid_ports =
    "ports must be a valid single port, comma separated list of ports, or range or ports, formatted as a string"

abbrev pub invalid_destination : String
invalid_destination =
    "destination must contain valid CIDR(s), IP address(es), or IP address range(s)"

abbrev pub invalid_name : String
invalid_name = "display name cannot be empty and must be less than 255 characters"

unfoldable pub validate_name : String → Option String
validate_name name = if eqb (len name) 0 || ltb 255 (len name) then some invalid_name else none

unfoldable pub validate_rule_icmp : ℤ → ℤ → String → Option String
validate_rule_icmp icmp_type icmp_code protocol =
    if protocol == "icmp"
    then none
    else if protocol == "icmpv6"
    then none
    else if not (int_eqb icmp_type (pos 0))
    then some "type allowed for ICMP and ICMPv6 only"
    else if not (int_eqb icmp_code (pos 0))
    then some "code allowed for ICMP and ICMPv6 only"
    else none

-- Some text is the error of `fmt.Errorf("rules[%d]: %w", i, err)`, or of a check.
abbrev pub first_error : Option String → Option String → Option String
first_error none e = e
first_error (some d) e = some d

module _ (parsers : Parsers) where
  open parsers use {parse_ip4, parse_cidr4, atoi, trim_space, itoa}

  abbrev pub is_port : Option ℤ → Bool
  is_port none = false
  is_port (some (pos n)) = leb 1 n && leb n 65535
  is_port (some (negsuc n)) = false

  unfoldable pub is_valid_port : String → Bool
  is_valid_port port = is_port (atoi port)

  abbrev pub is_range : List String → Bool
  is_range (a ∷ b ∷ []) = is_valid_port a && is_valid_port b
  is_range _ = false

  unfoldable pub validate_rule_ports : String → String → Option String
  validate_rule_ports ports protocol =
      let port_range = split_on b'-' ports in
      let port_values = split_on b',' ports in
      if protocol == "all"
      then (if not (ports == "")
          then some "ports are not allowed for protocols of type all"
          else none)
      else if protocol == "tcp" || protocol == "udp"
      then (if ports == ""
          then some (
              concat
                ("ports are required for protocols of type TCP and UDP, " ∷ invalid_ports ∷ []))
          else if ltb 1 (length port_range) && ltb 1 (length port_values)
          then some invalid_ports
          else if is_range port_range
          then none
          else if all is_valid_port port_values
          then none
          else some invalid_ports)
      else none

  abbrev pub is_wide : Option ℕ → Bool
  is_wide none = false
  is_wide (some ones) = leb 1 ones && leb ones 32

  abbrev pub range_error : List String → Option String
  range_error (a ∷ b ∷ []) =
      if not (parse_ip4 a) || not (parse_ip4 b)
      then some "destination IP address range is invalid"
      else none
  range_error _ = some invalid_destination

  unfoldable pub validate_rule_destination : String → Option String
  validate_rule_destination destination =
      if parse_ip4 destination
      then none
      else if is_wide (parse_cidr4 destination)
      then none
      else range_error (split_on b'-' destination)

  unfoldable pub destinations_error : List String → Option String
  destinations_error [] = none
  destinations_error (dest ∷ dests) =
      first_error (validate_rule_destination (trim_space dest)) (destinations_error dests)

  unfoldable pub rule_error : Rule → Option String
  rule_error rule = first_error (destinations_error (split_on b',' rule.destination)) (
      first_error (validate_rule_ports rule.ports rule.protocol)
        (validate_rule_icmp rule.icmp_type rule.icmp_code rule.protocol))

  abbrev at_rule : ℕ → Option String → Option String → Option String
  at_rule i none rest = rest
  at_rule i (some e) rest = some (concat ("rules[" ∷ itoa i ∷ "]: " ∷ e ∷ []))

  -- The loop over the rules from index `i` on.
  unfoldable pub validate_rules : ℕ → List Rule → Option String
  validate_rules i [] = none
  validate_rules i (rule ∷ rules) = at_rule i (rule_error rule) (validate_rules (suc i) rules)

  abbrev rules_error : Option String → Option ValidationError
  rules_error none = none
  rules_error (some e) = some (record { error_type = "InvalidSecurityGroupRuleError"; message = e })

  -- The type of the error for a bad name is the text of that error, as in the source.
  abbrev name_error : Option String → Option ValidationError → Option ValidationError
  name_error none rest = rest
  name_error (some e) rest = some (record { error_type = invalid_name; message = e })

  unfoldable pub validate_security_group : SecurityGroup → Option ValidationError
  validate_security_group group =
      name_error (validate_name group.display_name) (rules_error (validate_rules 0 group.rules))

abbrev pub unique_security_group : (String → String) → SecurityGroup → UniqueObject
unique_security_group to_lower group = record {
  namespace = group.namespace;
  name = group.name;
  unique_name = to_lower group.display_name;
  unique_validation_error_message =
      concat ("Security group with name '" ∷ group.display_name ∷ "' already exists." ∷ []);
}

module _ (parsers : Parsers) (root_namespace : String) (registry : NameRegistry) where
  open registry use {State}
  open parsers use {to_lower}

  abbrev validated :
      Option ValidationError
      → State × Option ValidationError
      → State
      → State × Option ValidationError
  validated (some e) next s = (s, some e)
  validated none next s = next

  unfoldable pub validate_create : Context → SecurityGroup → State → State × Option ValidationError
  validate_create ctx group s =
      validated (validate_security_group parsers group)
        (Duplicate.validate_create registry ctx root_namespace
          (unique_security_group to_lower group) s)
        s

  unfoldable pub validate_update :
      Context → SecurityGroup → SecurityGroup → State → State × Option ValidationError
  validate_update ctx old group s =
      if group.is_deleting
      then (s, none)
      else validated (validate_security_group parsers group)
          (Duplicate.validate_update registry ctx root_namespace
            (unique_security_group to_lower old) (unique_security_group to_lower group) s)
          s

  unfoldable pub validate_delete : Context → SecurityGroup → State → State × Option ValidationError
  validate_delete ctx group s =
      Duplicate.validate_delete registry ctx root_namespace (unique_security_group to_lower group) s
