-- ===== src/Authz.antt =====
-- Authorization of a request (src/istos/security/authz.py): the gate, shared-secret tokens, roles,
-- and the layering of an application's authorizer with a handler's.
pub mod Layers
mod Examples
use istos.Prelude.{
  Bool, true, false, ◌&&◌, ◌||◌, Option, none, some, List, [], ◌∷◌, String, if◌then◌else◌, text_key,
  ◌==◌,
}
use istos.Dict
use istos.Dict.{Dict, contains}

pub record Principal : Type 0 where
  pub id : String
  pub roles : List String

-- What an authorizer reads of the request, and the principal that an earlier layer established.
pub record AuthContext : Type 0 where
  pub prefix : String
  pub token : Option String
  pub principal : Option Principal

-- UnauthorizedError (401), ForbiddenError (403), or another exception of an authorizer.
pub data Denial : Type 0 where
  unauthorized forbidden : Denial
  failed : String → Denial

-- A falsy value, a bare True, a principal, or an exception.
pub data Answer : Type 0 where
  refused : Answer
  bare : Answer
  identity : Principal → Answer
  raises : Denial → Answer

-- An authorizer may set the principal of the context that it is given.
abbrev pub Authorizer : Type 0
Authorizer = AuthContext → AuthContext × Answer

-- What `check_authorized` returns or raises.
pub data Outcome : Type 0 where
  granted : Option Principal → Outcome
  denied : Denial → Outcome

unfoldable pub judged : Answer → Outcome
judged refused = denied unauthorized
judged bare = granted none
judged (identity p) = granted (some p)
judged (raises d) = denied d

unfoldable pub check_authorized : Option Authorizer → AuthContext → AuthContext × Outcome
unfolding judged
check_authorized none ctx = (ctx, granted none)
check_authorized (some authorizer) ctx =
    let (after, answer) = authorizer ctx in (after, judged answer)

-- `_tokens` and `_principals`.
pub record TokenAuthorizer : Type 0 where
  pub tokens : List String
  pub principals : Dict String Principal

unfoldable pub principal_or_true : Option Principal → Answer
principal_or_true none = bare
principal_or_true (some p) = identity p

unfoldable pub token_answer : TokenAuthorizer → Option String → Answer
unfolding principal_or_true
token_answer t none = refused
token_answer t (some token) =
    if contains token t.tokens then principal_or_true (Dict.get t.principals token) else refused

unfoldable pub token_authorizer : TokenAuthorizer → Authorizer
unfolding token_answer
token_authorizer t ctx = (ctx, token_answer t ctx.token)

-- What a handler is declared with: no authorizer, `Public`, or one of its own.
pub data HandlerAuthorizer : Type 0 where
  inherited : HandlerAuthorizer
  public_sentinel : HandlerAuthorizer
  own : Authorizer → HandlerAuthorizer

-- `handler_principal or app_principal or True`
unfoldable pub preferred : Option Principal → Option Principal → Answer
preferred (some h) app = identity h
preferred none (some a) = identity a
preferred none none = bare

unfoldable pub handler_layer : Option Principal → AuthContext × Outcome → AuthContext × Answer
unfolding preferred
handler_layer app (ctx, granted p) = (ctx, preferred p app)
handler_layer app (ctx, denied d) = (ctx, raises d)

unfoldable pub app_layer : Authorizer → AuthContext × Outcome → AuthContext × Answer
unfolding handler_layer check_authorized
app_layer handler (ctx, granted p) =
    handler_layer p (check_authorized (some handler) (record ctx { principal = p }))
app_layer handler (ctx, denied d) = (ctx, raises d)

unfoldable pub layered : Authorizer → Authorizer → Authorizer
unfolding app_layer check_authorized
layered app handler ctx = app_layer handler (check_authorized (some app) ctx)

unfoldable pub combine_authorizers : Option Authorizer → HandlerAuthorizer → Option Authorizer
unfolding layered
combine_authorizers app public_sentinel = none
combine_authorizers app inherited = app
combine_authorizers none (own handler) = some handler
combine_authorizers (some app) (own handler) = some (layered app handler)

pub data Mode : Type 0 where
  all_of any_of : Mode

-- `required <= have` and `required & have`.
unfoldable pub subset : List String → List String → Bool
subset [] have = true
subset (r ∷ rs) have = contains r have && subset rs have

unfoldable pub meets : List String → List String → Bool
meets [] have = false
meets (r ∷ rs) have = contains r have || meets rs have

unfoldable pub has_roles : Mode → List String → Principal → Bool
unfolding subset meets
has_roles all_of required p = subset required p.roles
has_roles any_of required p = meets required p.roles

unfoldable pub role_answer : Mode → List String → Option Principal → Answer
unfolding has_roles
role_answer mode required none = raises unauthorized
role_answer mode required (some p) =
    if has_roles mode required p then identity p else raises forbidden

unfoldable pub authenticated : Mode → List String → AuthContext × Outcome → AuthContext × Answer
unfolding role_answer
authenticated mode required (ctx, granted p) =
    (record ctx { principal = p }, role_answer mode required p)
authenticated mode required (ctx, denied d) = (ctx, raises d)

unfoldable pub require_roles : Mode → List String → Option Authorizer → Authorizer
unfolding authenticated check_authorized
require_roles mode required none ctx = (ctx, role_answer mode required ctx.principal)
require_roles mode required (some a) ctx =
    authenticated mode required (check_authorized (some a) ctx)
