-- ===== src/Tests/Routed.antt =====
-- Routes at concrete requests (nmoscommon/webapi.py and flask_cors.py).
use nmos_common.Common.{ℕ, suc, ◌≡◌, refl, true, false, none, some, [], ◌∷◌, ◌++◌}
use nmos_common.Common.Json.{list, nil}
use nmos_common.Web.{Response, data_value, no_body, default_type}
use nmos_common.Web.Secure.{passes, returns_requires_auth}
use nmos_common.Web.Cors.{several, sorted, insert, crossdomain}
use nmos_common.Web.Routes.{
  cors_of, Method, secure_route, resource_method, api_paths, Rule, rule, Kind, secure, basic, json,
  plain, file, resource, rules_of, any_origin, crossdomain_methods, underscored, add_routes,
  all_rules,
}
use nmos_common.Web.Views.{Server, Request, Run, serve, wrapped}
use nmos_common.Web.Guarded.{seen, serve-secure}

abbrev bare : Method
bare = record {
  name = "flows";
  common_path = none;
  secure_path = none;
  response_path = none;
  app_path = none;
  file_path = none;
  resource_path = none;
  socket_path = none;
  app_methods = none;
  app_headers = none;
  app_origin = any_origin;
  auto_json = true;
  error_codes = none;
}

abbrev flows : Method
flows = secure_route "/flows" none true none (several ("a.example" ∷ "b.example" ∷ [])) bare

abbrev tree : Method
tree = resource_method "/flows/" none bare

abbrev default_response : Response
default_response = record { status = 200; mime = default_type; headers = []; body = no_body }

abbrev server : Server
server = record {
  unicode = record { digit_value = λ c. none; is_digit = λ c. false; is_space = λ c. false };
  flask = record { default_options = default_response; upper = λ s. s };
  config = some (record {
    check_token = λ t. record { code = 200; userid = none; token = none };
    access_whitelist = [];
  });
  format = λ v. "";
}

-- a method that counts its calls
abbrev counts : (k : Kind) → Run ℕ k
counts secure =
    λ n. (some (record { status = none; headers = none; value = data_value (list nil) }), suc n)
counts basic = λ n. (some default_response, suc n)
counts json =
    λ n. (some (record { status = none; headers = none; value = data_value (list nil) }), suc n)
counts plain = λ n. (none, suc n)
counts file = λ n. (some (list nil), suc n)
counts resource = λ n. (some (list nil), suc n)

abbrev post : Request
post = record { method = "POST"; token = none; html = false; path = "" }

abbrev flows_rule : Rule
flows_rule = rule "/x/flows" "_x_flows" ("GET" ∷ "HEAD" ∷ "OPTIONS" ∷ []) secure (
    cors_of (several ("a.example" ∷ "b.example" ∷ [])) ("GET" ∷ "HEAD" ∷ [])
      (some ("Content-Type" ∷ "Authorization" ∷ "token" ∷ [])))

flows_rules : rules_of (λ n. true) ("/flows" ∷ []) "/x" flows ≡ flows_rule ∷ []
unfolding rules_of underscored crossdomain_methods secure_route
flows_rules = refl

serve-secure_example : seen server post 0 (serve server flows_rule counts post 0) ≡ (some 401, 1)
unfolding secure_route rules_of underscored crossdomain_methods passes
serve-secure_example =
    serve-secure server post 0 (λ n. true) ("/flows" ∷ []) "/x" flows "/flows" flows_rule counts
      refl (0, refl)

-- a method that raises is not answered by 401
abbrev raises : (k : Kind) → Run ℕ k
raises secure = λ n. (none, suc n)
raises basic = λ n. (none, suc n)
raises json = λ n. (none, suc n)
raises plain = λ n. (none, suc n)
raises file = λ n. (none, suc n)
raises resource = λ n. (none, suc n)

raised_first : seen server post 0 (serve server flows_rule raises post 0) ≡ (none, 1)
unfolding serve crossdomain wrapped returns_requires_auth
raised_first = refl

-- the resource at the path with a slash has two rules, and none for OPTIONS
two_rules :
    add_routes (λ n. true) (flows ∷ tree ∷ []) ""
    ≡ some (
        rules_of (λ n. true) ("/flows" ∷ "/flows/" ∷ []) "" flows
        ++ rules_of (λ n. true) ("/flows" ∷ "/flows/" ∷ []) "" tree)
unfolding add_routes all_rules api_paths secure_route resource_method rules_of
two_rules = refl

no_slash : add_routes (λ n. true) [] "/x/" ≡ none
unfolding add_routes
no_slash = refl

sorted_methods : sorted ("PUT" ∷ "GET" ∷ "POST" ∷ []) ≡ "GET" ∷ "POST" ∷ "PUT" ∷ []
unfolding sorted insert
sorted_methods = refl
