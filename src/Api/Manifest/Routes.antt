-- ===== src/Api/Manifest/Routes.antt =====
-- The URL of a route, taken apart and put together (`splitRoute` of api/actions/manifest/applier.go
-- and `routeURL` of api/actions/manifest/state_collector.go).
use Prim.Native.String
use Prim.Native.Char.{Char, code}
use text.Mathlib.TextLemmas
use text.Mathlib.TextEquality.{Char-path}
use korifi.Base.{
  String, [], ◌∷◌, ◌≡◌, ◌≢◌, refl, sym, ap, ◌∙◌, Option, none, some, ◌==◌, concat, eqb, eq_iff,
  arith, if_either, if_false, if◌then◌else◌,
}
use korifi.Api.Manifest.Applier.{
  split_in_two, push_front, RouteParts, path_of, parts_of, split_route,
}

-- `routeURL`, of a route with this host, domain name and path.
unfoldable pub route_url : RouteParts → String
route_url r =
    if r.host == ""
    then concat (r.domain ∷ r.path ∷ [])
    else concat (r.host ∷ "." ∷ r.domain ∷ r.path ∷ [])

-- The parts with the separator between them.
abbrev rejoined : Char → String × Option String → String
rejoined sep (before, none) = before
rejoined sep (before, some rest) = String.◌++◌ before (String.◌∷◌ sep rest)

rejoined-push_front :
    (sep c : Char) (parts : String × Option String)
    → rejoined sep (push_front c parts) ≡ String.◌∷◌ c (rejoined sep parts)
rejoined-push_front sep c (before, none) = refl
rejoined-push_front sep c (before, some rest) =
    TextLemmas.cons-append c before (String.◌∷◌ sep rest)

rejoined-split_in_two : (sep : Char) (s : String) → rejoined sep (split_in_two (code sep) s) ≡ s
unfolding split_in_two
rejoined-split_in_two sep String.[] = refl
rejoined-split_in_two sep (String.◌∷◌ c s) =
    if_either (λ (parts : String × Option String). rejoined sep parts ≡ String.◌∷◌ c s)
      (eqb (code c) (code sep)) _ _
      (λ is.
        TextLemmas.nil-append (String.◌∷◌ sep s)
        ∙ ap (λ d. String.◌∷◌ d s) (Char-path sep c (ground (arith, is))))
      (λ other.
        rejoined-push_front sep c (split_in_two (code sep) s)
        ∙ ap (λ t. String.◌∷◌ c t) (rejoined-split_in_two sep s))

one_char : (c : Char) (t : String) → String.◌++◌ (String.◌∷◌ c "") t ≡ String.◌∷◌ c t
one_char c t = TextLemmas.cons-append c "" t ∙ ap (λ u. String.◌∷◌ c u) (TextLemmas.nil-append t)

-- What stands after the dot.
after_dot :
    (parts : String × Option String) → concat (parts.0 ∷ path_of parts.1 ∷ []) ≡ rejoined "/" parts
after_dot (domain, none) =
    ap (String.◌++◌ domain) (TextLemmas.nil-append "") ∙ TextLemmas.append-nil domain
after_dot (domain, some rest) = ap (String.◌++◌ domain) (
    TextLemmas.append-nil (path_of (some rest))
    ∙ ap (String.◌++◌ "/") (TextLemmas.append-nil rest)
    ∙ one_char "/" rest)

put_together :
    (host : String) (rest : Option String) (r : RouteParts)
    → parts_of host rest ≡ some r
    → concat (r.host ∷ "." ∷ r.domain ∷ r.path ∷ []) ≡ rejoined "." (host, rest)
put_together host none r h = cc
put_together host (some rest) r h =
    let parts = split_in_two 47 rest in
    let made : RouteParts = record { host = host; domain = parts.0; path = path_of parts.1 } in
    let same : made ≡ r = cc h in
    ap (λ (x : RouteParts). concat (x.host ∷ "." ∷ x.domain ∷ x.path ∷ [])) (sym same)
    ∙ ap (λ t. String.◌++◌ host (String.◌++◌ "." t))
        (after_dot parts ∙ rejoined-split_in_two "/" rest)
    ∙ ap (String.◌++◌ host) (one_char "." rest)

-- When a route of a manifest is split into its parts, and its host is not empty, then the URL under
-- which the state of the application lists the route of these parts is the route of the manifest:
-- once made, it is found again.
pub split_route-route_url :
    (route : String) (r : RouteParts)
    → split_route route ≡ some r
    → r.host ≢ ""
    → route_url r ≡ route
unfolding split_route route_url
split_route-route_url route r h hosted =
    let parts = split_in_two 46 route in
    if_false (r.host == "") _ _ (ground (arith, eq_iff r.host "", hosted))
    ∙ put_together parts.0 parts.1 r h
    ∙ rejoined-split_in_two "." route
