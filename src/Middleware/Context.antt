-- ===== src/Middleware/Context.antt =====
-- Which request context the code of a chain (src/istos/middleware/base.py) sees.
use istos.Prelude.{ℕ, ◌≡◌, refl, sym, ap, ◌∙◌, inl, inr, Option, some, List, [], ◌∷◌, In}
use istos.Middleware.{
  RequestScope, ChainEnding, Code, ends, looks, calls_next, Task, push_request_context,
  pop_request_context, label, call_next, run_code, run_handler, dispatch, invoke,
}

-- Every lookup has found the context of the scope of its own code.
abbrev pub SeesOwn : Task → Type 0
SeesOwn t = (own : ℕ) (found : Option ℕ) → In (own, found) t.seen → found ≡ some own

-- A dispatch that starts in the context of its scope ends in it, and keeps it that lookups find their own.
abbrev pub Faithful : (RequestScope → Task → Task × ChainEnding) → Type 0
Faithful d =
    (sc : RequestScope) (t : Task)
    → t.current ≡ some sc.context
    → SeesOwn t
    → ((d sc t).0.current ≡ some sc.context) × SeesOwn (d sc t).0

run_code-Faithful :
    (next : RequestScope → Task → Task × ChainEnding) (own : ℕ) (code : Code) (t : Task)
    → Faithful next
    → t.current ≡ some own
    → SeesOwn t
    → ((run_code next own code t).0.current ≡ some own) × SeesOwn (run_code next own code t).0
unfolding run_code call_next push_request_context pop_request_context
run_code-Faithful next own (ends e) t f here sees = (here, sees)
run_code-Faithful next own (looks g) t f here sees =
    run_code-Faithful next own (g t.current) (record t { seen = (own, t.current) ∷ t.seen }) f here
      (λ o found m. elim m [
        | inl now ↦
            ap (λ (x : ℕ × Option ℕ). x.1) now
            ∙ here
            ∙ ap (λ (x : ℕ × Option ℕ). some x.0) (sym now)
        | inr before ↦ sees o found before
      ])
run_code-Faithful next own (calls_next sc k) t f here sees =
    let inner = f sc (push_request_context sc.context t) refl sees in
    run_code-Faithful next own (k (call_next next sc t).1) (call_next next sc t).0 f here inner.1

dispatch-Faithful :
    (middlewares : List (RequestScope → Code)) (handler : RequestScope → Code)
    → Faithful (dispatch middlewares handler)
unfolding dispatch label run_handler
dispatch-Faithful [] handler sc t here sees =
    run_code-Faithful run_handler sc.context (handler sc) (label sc t) (λ x y h s. (h, s)) here sees
dispatch-Faithful (middleware ∷ rest) handler sc t here sees =
    run_code-Faithful (dispatch rest handler) sc.context (middleware sc) (label sc t)
      (dispatch-Faithful rest handler) here sees

-- Whatever the middlewares and the handler do, however often they call the next one, with whatever scopes,
-- and whether they return or raise: each lookup of the request context finds the context of the scope of
-- the code that looks, also after a call of the next one, and the task has its own context back at the
-- end, if the lookups before found theirs.
pub invoke-SeesOwn :
    (middlewares : List (RequestScope → Code)) (handler : RequestScope → Code) (sc : RequestScope)
    (t : Task)
    → SeesOwn t
    → SeesOwn (invoke middlewares handler sc t).0
      × ((invoke middlewares handler sc t).0.current ≡ t.current)
unfolding invoke push_request_context pop_request_context label
invoke-SeesOwn middlewares handler sc t sees = (
  (dispatch-Faithful middlewares handler sc (push_request_context sc.context (label sc t)) refl
      sees).1,
  refl,
)
