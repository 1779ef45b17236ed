-- ===== src/Webhooks/Tests.antt =====
-- The validators at concrete objects.
use korifi.Base.{
  String, ◌≡◌, refl, ◌≢◌, ◌≤◌, len, List, [], ◌∷◌, Bool, true, false, Option, none, some, ◌==◌, ◌↔◌,
  if◌then◌else◌, ◌⊎◌, inl, All, split_on,
}
use korifi.Base.Int.{ℤ, pos}
use korifi.Kube.Errors.{ApiError, Result, ok}
use korifi.Kube.Listed.{listed_conditions}
use korifi.Validation.{ValidationError}
use korifi.Webhooks.Domains.{Domain, same_tail, is_sub_domain, overlaps_any}
use korifi.Webhooks.Domains
use korifi.Webhooks.Domains.Suffix.{EndsIn, is_sub_domain_iff}
use korifi.Webhooks.Domains.Disjoint.{
  AreApart, PairwiseApart, Admitted, none_yet, one_more, validate_create_iff, Admitted-apart,
}
use korifi.Webhooks.SecurityGroups.{
  Rule, SecurityGroup, Parsers, validate_name, validate_rule_icmp, is_valid_port,
  validate_rule_ports, validate_rule_destination, destinations_error, rule_error, validate_rules,
  validate_security_group,
}
use korifi.Webhooks.SecurityGroups.Allowed.{IsPort, Allowed}
use korifi.Webhooks.SecurityGroups.Rules.{rule_ports_checked, security_group_iff}
use korifi.Webhooks.Tasks.{Task}
use korifi.Webhooks.Tasks
use korifi.Webhooks.Tasks.Updates.{Updates, created, update}

abbrev org : List String
org = "korifi" ∷ "org" ∷ []

abbrev apps_org : List String
apps_org = "apps" ∷ "korifi" ∷ "org" ∷ []

is_sub_domain_iff_example :
    ((r : Bool) × (is_sub_domain apps_org org ≡ some r))
    × ((is_sub_domain apps_org org ≡ some true) ↔ (EndsIn org apps_org ⊎ EndsIn apps_org org))
is_sub_domain_iff_example = is_sub_domain_iff apps_org org

abbrev domain : String → Domain
domain name = record { name = name; is_deleting = false }

abbrev fine : String → Option String
fine name = none

validate_create_iff_example :
    ((e : Option ValidationError) × (Domains.validate_create
          (λ s. s)
          fine
          (ok (domain "korifi.org" ∷ []))
          (domain "apps.org")
        ≡ some e))
    × ((Domains.validate_create (λ s. s) fine (ok (domain "korifi.org" ∷ [])) (domain "apps.org")
          ≡ some none)
        ↔ ((fine "apps.org" ≡ none)
            × ((ds : List Domain) × (◌≡◌ {A = Result ApiError (List Domain)}
                  (ok (domain "korifi.org" ∷ []))
                  (ok ds))
                × All (AreApart (domain "apps.org")) ds)))
validate_create_iff_example =
    validate_create_iff (λ s. s) fine (ok (domain "korifi.org" ∷ [])) (domain "apps.org")

two-Admitted : Admitted (λ s. s) fine (domain "apps.org" ∷ domain "korifi.org" ∷ [])
unfolding Domains.validate_create overlaps_any is_sub_domain same_tail split_on
two-Admitted =
    one_more (domain "apps.org") (domain "korifi.org" ∷ [])
      (one_more (domain "korifi.org") [] none_yet refl) refl

Admitted-apart_example : PairwiseApart (domain "apps.org" ∷ domain "korifi.org" ∷ [])
Admitted-apart_example = Admitted-apart (λ s. s) fine _ two-Admitted

abbrev digits : String → Option ℤ
digits s = if s == "80" then some (pos 80) else if s == "443" then some (pos 443) else none

abbrev parsers : Parsers
parsers = record {
  parse_ip4 = λ s. s == "10.0.0.1";
  parse_cidr4 = λ s. none;
  atoi = digits;
  trim_space = λ s. s;
  to_lower = λ s. s;
  itoa = λ n. "1";
}

abbrev rule : String → Rule
rule ports = record {
  protocol = "tcp";
  destination = "10.0.0.1";
  ports = ports;
  icmp_type = pos 0;
  icmp_code = pos 0;
}

abbrev group : SecurityGroup
group = record {
  namespace = "cf";
  name = "guid";
  is_deleting = false;
  display_name = "web";
  rules = rule "80,443" ∷ rule "0" ∷ [];
}

calls : Unit {0}
unfolding validate_name validate_rule_icmp is_valid_port validate_rule_ports
    validate_rule_destination destinations_error rule_error validate_rules split_on
calls = tt

rule_ports_checked_example :
    (All (IsPort parsers) (split_on b'-' "80,443"))
    ⊎ (All (IsPort parsers) (split_on b',' "80,443"))
unfolding calls
rule_ports_checked_example = rule_ports_checked parsers "80,443" "tcp" (inl refl) refl

security_group_iff_example : (validate_security_group parsers group ≡ none) ↔ (
    (1 ≤ len group.display_name)
    × (len group.display_name ≤ 255)
    × All (Allowed parsers) group.rules)
security_group_iff_example = security_group_iff parsers group

abbrev task : ℤ → Bool → Task
task id canceled = record {
  namespace = "space";
  name = "task";
  is_deleting = false;
  command = "sleep 1";
  app_ref_name = "app";
  canceled = canceled;
  sequence_id = id;
  conditions = [];
}

update_calls : Unit {0}
unfolding Tasks.validate_update
update_calls = tt

canceled_task : Updates listed_conditions (task (pos 7) false) (task (pos 7) true)
unfolding update_calls
canceled_task = update (task (pos 7) false) (task (pos 7) true) created refl refl

seven : pos 7 ≢ pos 0
seven h = cc
