-- ===== src/Authz/Examples.antt =====
-- Requests to a handler for operators (src/istos/security/authz.py), and the theorems of the layers
-- at them.
use istos.Prelude.{◌≡◌, ◌⊎◌, Option, none, some, [], ◌∷◌, String, text_key}
use istos.Dict
use istos.Dict.{contains}
use istos.Authz.{
  Principal, AuthContext, Denial, Authorizer, granted, denied, check_authorized, TokenAuthorizer,
  token_authorizer, own, combine_authorizers, all_of, require_roles,
}
use istos.Authz.Layers.{
  admission, bearer, app_says, handler_says, first_of, both_layers, token_roles,
}

abbrev ops : Principal
ops = record { id = "ops"; roles = "admin" ∷ "deploy" ∷ [] }

abbrev tokens : TokenAuthorizer
tokens = record { tokens = "t1" ∷ "t2" ∷ []; principals = Dict.set Dict.empty "t1" ops }

abbrev guard : Authorizer
guard = require_roles all_of ("admin" ∷ []) none

abbrev request : Option String → AuthContext
request token = record { prefix = "admin/reset"; token = token; principal = none }

token_roles_example :
    (check_authorized
      (combine_authorizers (some (token_authorizer tokens)) (own guard))
      (request (some "t1"))).1
    ≡ admission all_of ("admin" ∷ []) (bearer tokens (some "t1"))
token_roles_example = token_roles tokens all_of ("admin" ∷ []) (request (some "t1"))

both_layers_example :
    let ctx = request (some "t2") in
    let app = token_authorizer tokens in
    let out = (check_authorized (combine_authorizers (some app) (own guard)) ctx).1 in
    ((d : Denial) × ((app_says app ctx).1 ≡ denied d) × (out ≡ denied d))
    ⊎ ((p : Option Principal) × ((app_says app ctx).1 ≡ granted p)
        × (((d : Denial) × (handler_says app guard p ctx ≡ denied d) × (out ≡ denied d))
            ⊎ ((q : Option Principal) × (handler_says app guard p ctx ≡ granted q)
                × (out ≡ granted (first_of q p)))))
both_layers_example = both_layers (token_authorizer tokens) guard (request (some "t2"))
