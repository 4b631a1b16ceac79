-- ===== src/Middleware.antt =====
-- The middleware chain: `MiddlewareStack` of src/istos/middleware/base.py, with the request context of
-- src/istos/context.py. A context is an object that scopes share, so a scope has its address.
pub mod Context
mod Examples
use istos.Prelude.{ℕ, Option, none, some, List, [], ◌∷◌, String, nat_beq, if◌then◌else◌}

-- The fields of a context that the stack writes.
pub record Labels : Type 0 where
  pub prefix : String
  pub operation : String

pub record RequestScope : Type 0 where
  pub prefix : String
  pub operation : String
  pub context : ℕ

-- What runs of the code between its calls leave: a result or an exception.
pub data ChainEnding : Type 0 where
  results : String → ChainEnding
  raises : String → ChainEnding

-- A middleware or a handler once it has its scope: it ends, it looks up the request context and goes on with
-- what it finds, or it calls `call_next` with a scope and goes on with how that ends.
pub data Code : Type 0 where
  ends : ChainEnding → Code
  looks : (Option ℕ → Code) → Code
  calls_next : RequestScope → (ChainEnding → Code) → Code

-- The context of the task, the contexts by address, and the lookups so far, newest first: the context of the scope
-- of the code that looked, and what it found.
pub record Task : Type 0 where
  pub current : Option ℕ
  pub contexts : ℕ → Labels
  pub seen : List (ℕ × Option ℕ)

-- `push_request_context`, and `pop_request_context` with what the token restores.
unfoldable pub push_request_context : ℕ → Task → Task
push_request_context c t = record t { current = some c }

unfoldable pub pop_request_context : Option ℕ → Task → Task
pop_request_context before t = record t { current = before }

-- `current.context.prefix = current.prefix`, and the operation.
unfoldable pub label : RequestScope → Task → Task
label sc t = record t {
  contexts = λ a.
      if nat_beq a sc.context
      then record { prefix = sc.prefix; operation = sc.operation }
      else t.contexts a;
}

unfoldable pub call_next :
    (RequestScope → Task → Task × ChainEnding) → RequestScope → Task → Task × ChainEnding
unfolding push_request_context pop_request_context
call_next dispatch sc t =
    let (after, ending) = dispatch sc (push_request_context sc.context t) in
    (pop_request_context t.current after, ending)

-- The code of a scope with the context `own`, with what its `call_next` dispatches to.
unfoldable pub run_code :
    (RequestScope → Task → Task × ChainEnding) → ℕ → Code → Task → Task × ChainEnding
unfolding call_next
run_code next own (ends e) t = (t, e)
run_code next own (looks f) t =
    run_code next own (f t.current) (record t { seen = (own, t.current) ∷ t.seen })
run_code next own (calls_next sc k) t =
    let (after, ending) = call_next next sc t in run_code next own (k ending) after

-- A handler has nothing to call.
unfoldable pub run_handler : RequestScope → Task → Task × ChainEnding
run_handler sc t = (t, raises "no call_next")

unfoldable pub dispatch :
    List (RequestScope → Code) → (RequestScope → Code) → RequestScope → Task → Task × ChainEnding
unfolding run_code label run_handler
dispatch [] handler sc t = run_code run_handler sc.context (handler sc) (label sc t)
dispatch (middleware ∷ rest) handler sc t =
    run_code (dispatch rest handler) sc.context (middleware sc) (label sc t)

unfoldable pub invoke :
    List (RequestScope → Code) → (RequestScope → Code) → RequestScope → Task → Task × ChainEnding
unfolding dispatch label push_request_context pop_request_context
invoke middlewares handler sc t =
    let (after, ending) =
      dispatch middlewares handler sc (push_request_context sc.context (label sc t)) in
    (pop_request_context t.current after, ending)
