-- ===== src/Middleware/Examples.antt =====
-- A chain of two middlewares (src/istos/middleware/base.py).
use istos.Prelude.{◌≡◌, refl, some, [], ◌∷◌}
use istos.Middleware.{RequestScope, results, raises, Code, ends, looks, calls_next, Task, invoke}
use istos.Middleware.Context.{SeesOwn, invoke-SeesOwn}

abbrev request : RequestScope
request = record { prefix = "orders/get"; operation = "handle"; context = 1 }

abbrev task : Task
task = record {
  current = some 9;
  contexts = λ a. record { prefix = ""; operation = "" };
  seen = [];
}

-- It asks again under another context when the first call raises, and looks up its own after each call.
abbrev asks_twice : RequestScope → Code
asks_twice sc = calls_next sc (λ e. looks (λ c. elim e [
  | results s ↦ ends (results s)
  | raises s ↦ calls_next (record sc { context = 2 }) (λ e'. looks (λ d. ends e'))
]))

abbrev passes_on : RequestScope → Code
passes_on sc = calls_next sc (λ e. looks (λ c. ends e))

abbrev handler : RequestScope → Code
handler sc = looks (λ c. ends (raises "busy"))

lookups :
    (invoke (asks_twice ∷ passes_on ∷ []) handler request task).0.seen
    ≡ (1, some 1) ∷ (2, some 2) ∷ (2, some 2) ∷ (1, some 1) ∷ (1, some 1) ∷ (1, some 1) ∷ []
unfolding invoke
lookups = refl

-- A scope that shares its context writes the labels of the caller's context over.
abbrev renames : RequestScope → Code
renames sc = calls_next (record sc { prefix = "inner" }) (λ e. ends e)

labels_shared : ((invoke (renames ∷ []) handler request task).0.contexts 1).prefix ≡ "inner"
unfolding invoke
labels_shared = refl

invoke-SeesOwn_example :
    SeesOwn (invoke (asks_twice ∷ passes_on ∷ []) handler request task).0
    × ((invoke (asks_twice ∷ passes_on ∷ []) handler request task).0.current ≡ some 9)
invoke-SeesOwn_example =
    invoke-SeesOwn (asks_twice ∷ passes_on ∷ []) handler request task (λ own found m. absurd m)
