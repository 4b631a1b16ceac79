-- ===== src/Authz/Layers.antt =====
-- What a request needs to pass the layers of its handler.
use istos.Prelude.{
  ◌≡◌, refl, ◌⊎◌, inl, inr, Option, none, some, List, String, if◌then◌else◌, text_key, Bool-cases,
  Option-cases,
}
use istos.Dict
use istos.Dict.{Dict, contains}
use istos.Authz.{
  Principal, AuthContext, Denial, unauthorized, forbidden, refused, bare, identity, Authorizer,
  Outcome, granted, denied, judged, check_authorized, TokenAuthorizer, principal_or_true,
  token_answer, token_authorizer, own, preferred, handler_layer, app_layer, layered,
  combine_authorizers, Mode, has_roles, role_answer, require_roles,
}

-- The identity that two layers establish together: the handler's first.
abbrev pub first_of : Option Principal → Option Principal → Option Principal
first_of none app = app
first_of (some p) app = some p

-- What each layer says of the request, the handler's with the application's identity at hand.
abbrev pub app_says : Authorizer → AuthContext → AuthContext × Outcome
app_says app ctx = check_authorized (some app) ctx

abbrev pub handler_says : Authorizer → Authorizer → Option Principal → AuthContext → Outcome
handler_says app handler p ctx =
    (check_authorized (some handler) (record ((app_says app ctx).0) { principal = p })).1

handler_judged :
    (p : Option Principal) (out : AuthContext × Outcome)
    → ((d : Denial) × (out.1 ≡ denied d) × (judged (handler_layer p out).1 ≡ denied d))
      ⊎ ((q : Option Principal) × (out.1 ≡ granted q)
          × (judged (handler_layer p out).1 ≡ granted (first_of q p)))
unfolding handler_layer judged preferred
handler_judged p (ctx, denied d) = inl (d, refl, refl)
handler_judged none (ctx, granted none) = inr (none, refl, refl)
handler_judged (some a) (ctx, granted none) = inr (none, refl, refl)
handler_judged p (ctx, granted (some q)) = inr (some q, refl, refl)

app_judged :
    (handler : Authorizer) (out : AuthContext × Outcome)
    → ((d : Denial) × (out.1 ≡ denied d) × (judged (app_layer handler out).1 ≡ denied d))
      ⊎ ((p : Option Principal) × (out.1 ≡ granted p)
          × (((d : Denial) × ((check_authorized (some handler) (record (out.0) { principal = p })).1
                  ≡ denied d)
                × (judged (app_layer handler out).1 ≡ denied d))
              ⊎ ((q : Option Principal) × ((check_authorized
                      (some handler)
                      (record (out.0) { principal = p })).1
                    ≡ granted q)
                  × (judged (app_layer handler out).1 ≡ granted (first_of q p)))))
unfolding app_layer judged
app_judged handler (ctx, denied d) = inl (d, refl, refl)
app_judged handler (ctx, granted p) =
    inr (p, refl, handler_judged p (check_authorized (some handler) (record ctx { principal = p })))

-- A handler with an authorizer of its own under an application with one: what the application's
-- layer denies is denied as it says, without the handler's layer; what it grants the handler's
-- layer decides, knowing the identity established; and the request then carries the handler's
-- identity, or else the application's.
pub both_layers :
    (app handler : Authorizer) (ctx : AuthContext)
    → let out = (check_authorized (combine_authorizers (some app) (own handler)) ctx).1 in
      ((d : Denial) × ((app_says app ctx).1 ≡ denied d) × (out ≡ denied d))
      ⊎ ((p : Option Principal) × ((app_says app ctx).1 ≡ granted p)
          × (((d : Denial) × (handler_says app handler p ctx ≡ denied d) × (out ≡ denied d))
              ⊎ ((q : Option Principal) × (handler_says app handler p ctx ≡ granted q)
                  × (out ≡ granted (first_of q p)))))
unfolding combine_authorizers layered check_authorized
both_layers app handler ctx = app_judged handler (check_authorized (some app) ctx)

-- Who may call a handler that wants roles in an application with tokens.
abbrev pub admission : Mode → List String → Option Principal → Outcome
admission mode required none = denied unauthorized
admission mode required (some p) =
    if has_roles mode required p then granted (some p) else denied forbidden

-- The principal that a token stands for.
abbrev pub bearer : TokenAuthorizer → Option String → Option Principal
bearer t none = none
bearer t (some token) = if contains token t.tokens then Dict.get t.principals token else none

token_cases :
    (t : TokenAuthorizer) (token : Option String)
    → ((token_answer t token ≡ refused) × (bearer t token ≡ none))
      ⊎ ((token_answer t token ≡ bare) × (bearer t token ≡ none))
      ⊎ ((p : Principal) × (token_answer t token ≡ identity p) × (bearer t token ≡ some p))
unfolding token_answer principal_or_true
token_cases t none = inl (refl, refl)
token_cases t (some token) = elim (Bool-cases (contains token t.tokens)) [
  | inr unknown ↦ inl (rw (unknown) refl, rw (unknown) refl)
  | inl known ↦ elim (Option-cases (Dict.get t.principals token)) [
    | inl e ↦ inr (inl (rw (known, e) refl, rw (known, e) refl))
    | inr (p, e) ↦ inr (inr (p, rw (known, e) refl, rw (known, e) refl))
  ]
]

role_judged :
    (mode : Mode) (required : List String) (p : Principal) (ctx : AuthContext)
    → judged
        (handler_layer (some p) (
          check_authorized
            (some (require_roles mode required none))
            (record ctx { principal = some p }))).1
      ≡ admission mode required (some p)
unfolding judged handler_layer check_authorized require_roles role_answer preferred
role_judged mode required p ctx = elim (Bool-cases (has_roles mode required p)) [
  | inl has ↦ rw (has) refl
  | inr lacks ↦ rw (lacks) refl
]

-- A request to a handler that wants roles, in an application with shared tokens, is granted exactly
-- to the bearer of a known token whose principal has them; a principal without them is forbidden,
-- and a missing, unknown or anonymous token is unauthorized.
pub token_roles :
    (t : TokenAuthorizer) (mode : Mode) (required : List String) (ctx : AuthContext)
    → (check_authorized
        (combine_authorizers (some (token_authorizer t)) (own (require_roles mode required none)))
        ctx).1
      ≡ admission mode required (bearer t ctx.token)
unfolding combine_authorizers layered check_authorized app_layer handler_layer judged
    token_authorizer require_roles role_answer preferred
token_roles t mode required ctx = elim (token_cases t ctx.token) [
  | inl (e, f) ↦ rw (e, f) refl
  | inr (inl (e, f)) ↦ rw (e, f) refl
  | inr (inr (p, e, f)) ↦ rw (e, f) (role_judged mode required p ctx)
]
