-- ===== src/Approval/Storage.antt =====
-- The gate's state and its storage: `_write` and `load` of src/istos/agent/approval.py.
use istos.Prelude.{
  ℕ, Bool, true, false, Option, none, some, List, [], ◌∷◌, String, if◌then◌else◌, text_key,
  number_key,
}
use Prim.Native.Nat.{Ordering}
use Prim.Native.String.{compare}
use istos.Dict
use istos.Dict.{Dict, contains}
use istos.Approval.Request.{ApprovalRequest, is_pending}

-- The plugin: one key for each request and one for the index. `faults` says which accesses to come
-- raise.
pub record Plugin : Type 0 where
  pub cells : Dict String ApprovalRequest
  pub index : Option (List String)
  pub faults : List Bool

-- `_waiters` keeps for each id whether its event is set.
pub record ApprovalGate : Type 0 where
  pub storage : Option Plugin
  pub timeout_s : Option ℕ
  pub service : String
  pub requests : Dict String ApprovalRequest
  pub waiters : Dict String Bool
  pub loaded : Bool

-- Whether the next access raises, and the plugin before the ones after it.
unfoldable pub next_access : List Bool → Plugin → Bool × Plugin
next_access [] p = (false, p)
next_access (f ∷ rest) p = (f, record p { faults = rest })

-- `sorted` on texts, by their code points.
unfoldable pub insert : String → List String → List String
insert s [] = s ∷ []
insert s (t ∷ ts) = elim (compare t s) [ Ordering.gt ↦ s ∷ t ∷ ts | _ ↦ t ∷ insert s ts ]

unfoldable pub sorted : List String → List String
unfolding insert
sorted [] = []
sorted (s ∷ ss) = insert s (sorted ss)

-- The ids of those that are pending, for the index.
unfoldable pub pending_ids : List (String × ApprovalRequest) → List String
unfolding is_pending
pending_ids [] = []
pending_ids (e ∷ es) = let rest = pending_ids es in if is_pending e.1 then e.1.id ∷ rest else rest

unfoldable pub put_index : List String → Plugin → Plugin
unfolding next_access
put_index ids p =
    let (raised, q) = next_access p.faults p in if raised then q else record q { index = some ids }

unfoldable pub put_request : ApprovalRequest → List String → Plugin → Plugin
unfolding next_access put_index
put_request r ids p =
    let (raised, q) = next_access p.faults p in
    if raised then q else put_index ids (record q { cells = Dict.set q.cells r.id r })

unfoldable pub write : ApprovalRequest → ApprovalGate → ApprovalGate
unfolding put_request pending_ids sorted
write r g = elim (g.storage) [
  | none ↦ g
  | some p ↦ record g {
    storage = some (put_request r (sorted (pending_ids (Dict.items g.requests))) p);
  }
]

-- One id of the index: the stored request, unless there is none or the gate has the id already.
unfoldable pub recovered :
    String → Option ApprovalRequest → Dict String ApprovalRequest → Dict String ApprovalRequest
recovered id none requests = requests
recovered id (some r) requests = elim (Dict.get requests id) [
  | none ↦ Dict.set requests id r
  | some old ↦ requests
]

-- The loop of `load`, which the first read that raises ends.
unfoldable pub load_requests :
    List String → Plugin → Dict String ApprovalRequest → Plugin × Dict String ApprovalRequest
unfolding next_access recovered
load_requests [] p requests = (p, requests)
load_requests (id ∷ ids) p requests =
    let (raised, q) = next_access p.faults p in
    let rest = load_requests ids q (recovered id (Dict.get q.cells id) requests) in
    if raised then (q, requests) else rest

unfoldable pub or_empty : Option (List String) → List String
or_empty none = []
or_empty (some ids) = ids

unfoldable pub load_plugin :
    Plugin → Dict String ApprovalRequest → Plugin × Dict String ApprovalRequest
unfolding next_access load_requests or_empty
load_plugin p requests =
    let (raised, q) = next_access p.faults p in
    if raised then (q, requests) else load_requests (or_empty q.index) q requests

unfoldable pub load : ApprovalGate → ApprovalGate
unfolding load_plugin
load g = if g.loaded then g else elim (g.storage) [
  | none ↦ record g { loaded = true }
  | some p ↦
      let (q, requests) = load_plugin p g.requests in
      record g { loaded = true; storage = some q; requests = requests }
]
