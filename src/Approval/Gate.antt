-- ===== src/Approval/Gate.antt =====
-- Filing, deciding and waiting: the methods of `ApprovalGate` in src/istos/agent/approval.py.
use istos.Prelude.{
  ℕ, ◌+◌, ◌-◌, Bool, true, false, ◌&&◌, not, Option, none, some, List, [], ◌∷◌, String, ltb, min,
  if◌then◌else◌, keep_if, text_key, number_key, ◌==◌,
}
use istos.Dict
use istos.Dict.{Dict, contains}
use istos.Json.{Fields}
use istos.Approval.Request.{
  pending, approved, denied, expired, ApprovalRequest, is_expired, is_pending,
}
use istos.Approval.Storage.{ApprovalGate, write, load}

-- The arguments of `request`, with what it reads: the fresh id, and the clock for the request and
-- for its deadline. `timeout_s` is the sentinel, or what the caller gave.
pub data Timeout : Type 0 where
  gate_timeout : Timeout
  given : Option ℕ → Timeout

pub record Filing : Type 0 where
  pub tool : String
  pub arguments : Fields
  pub prefix : Option String
  pub reason : Option String
  pub requester : Option String
  pub conversation_id : Option String
  pub timeout_s : Timeout
  pub fresh_id : String
  pub now : ℕ
  pub requested : ℕ

unfoldable pub budget_of : Timeout → Option ℕ → Option ℕ
budget_of gate_timeout own = own
budget_of (given t) own = t

-- `time.time() + ttl if ttl else 0.0`
unfoldable pub deadline : ℕ → Option ℕ → ℕ
deadline now none = 0
deadline now (some t) = if t == 0 then 0 else now + t

unfoldable pub or_service : Option String → String → Option String
or_service none service = some service
or_service (some r) service = if r == "" then some service else some r

unfoldable pub new_request : Filing → ApprovalGate → ApprovalRequest
unfolding deadline budget_of or_service
new_request f g = record {
  id = f.fresh_id;
  tool = f.tool;
  arguments = f.arguments;
  prefix = f.prefix;
  state = pending;
  requested_at = f.requested;
  expires_at = deadline f.now (budget_of f.timeout_s g.timeout_s);
  reason = f.reason;
  requester = or_service f.requester g.service;
  conversation_id = f.conversation_id;
  decided_by = none;
  decided_at = 0;
  note = none;
}

-- A decision, with the clock as `is_expired` and `decided_at` read it.
pub record Decision : Type 0 where
  pub request_id : String
  pub approved : Bool
  pub by : Option String
  pub note : Option String
  pub arguments : Option Fields
  pub now : ℕ
  pub stamped : ℕ

unfoldable pub edited : Bool → Option Fields → Fields → Fields
edited true (some new) old = new
edited true none old = old
edited false new old = old

-- What the decision makes of a pending request.
unfoldable pub ruled : Decision → ApprovalRequest → ApprovalRequest
unfolding is_expired edited
ruled d r =
    if is_expired d.now r
    then record r { state = expired; decided_by = d.by; note = d.note; decided_at = d.stamped }
    else record r {
      state = if d.approved then approved else denied;
      arguments = edited d.approved d.arguments r.arguments;
      decided_by = d.by;
      note = d.note;
      decided_at = d.stamped;
    }

-- `event.set()`, for a request that someone waits on.
unfoldable pub wake : String → ApprovalGate → ApprovalGate
wake id g = elim (Dict.get g.waiters id) [
  | none ↦ g
  | some set ↦ record g { waiters = Dict.set g.waiters id true }
]

-- The end of a wait: an approved request, or why the tool does not run.
pub data Settled : Type 0 where
  granted : ApprovalRequest → Settled
  approval_denied : ApprovalRequest → Settled
  approval_timeout : ApprovalRequest → Settled
  not_found : Settled

unfoldable pub settled : ApprovalRequest → Settled
settled r = elim (r.state) [
  | approved ↦ granted r
  | denied ↦ approval_denied r
  | pending ↦ approval_timeout r
  | expired ↦ approval_timeout r
]

-- How `wait` starts: it has its answer, or it blocks with a budget.
pub data Waiting : Type 0 where
  answered : Settled → Waiting
  blocked : Option ℕ → Waiting

-- The gate's own deadline and the caller's, whichever comes first; a deadline that has passed
-- leaves nothing.
unfoldable pub budget : ℕ → Option ℕ → ApprovalRequest → Option ℕ
budget now own r = if r.expires_at == 0 then own else elim (own) [
  | none ↦ some (r.expires_at - now)
  | some b ↦ some (min b (r.expires_at - now))
]

unfoldable pub is_spent : Option ℕ → Bool
is_spent none = false
is_spent (some b) = b == 0

unfoldable pub request : Filing → ApprovalGate → ApprovalGate × ApprovalRequest
unfolding load new_request write
request f g =
    let g' = load g in
    let r = new_request f g' in
    (
      write r (record g' {
        requests = Dict.set g'.requests r.id r;
        waiters = Dict.set g'.waiters r.id false;
      }),
      r,
    )

unfoldable pub decide_found :
    Decision → Option ApprovalRequest → ApprovalGate → ApprovalGate × Option ApprovalRequest
unfolding ruled wake write is_pending
decide_found d none g = (g, none)
decide_found d (some r) g =
    if is_pending r
    then (
      wake d.request_id (
          write (ruled d r) (record g { requests = Dict.set g.requests d.request_id (ruled d r) })),
      some (ruled d r),
    )
    else (g, some r)

unfoldable pub decide : Decision → ApprovalGate → ApprovalGate × Option ApprovalRequest
unfolding load decide_found
decide d g = let g' = load g in decide_found d (Dict.get g'.requests d.request_id) g'

unfoldable pub expire_found : String → ℕ → Option ApprovalRequest → ApprovalGate → ApprovalGate
unfolding write is_pending
expire_found id now none g = g
expire_found id now (some r) g =
    if is_pending r
    then write (record r { state = expired; decided_at = now })
        (record g {
          requests = Dict.set g.requests id (record r { state = expired; decided_at = now });
        })
    else g

unfoldable pub expire : String → ℕ → ApprovalGate → ApprovalGate
unfolding expire_found
expire id now g = expire_found id now (Dict.get g.requests id) g

unfoldable pub forget_waiter : String → ApprovalGate → ApprovalGate
forget_waiter id g = record g { waiters = Dict.remove g.waiters id }

-- The deadline passes while `wait` blocks, or before it does.
unfoldable pub give_up : String → ApprovalRequest → ℕ → ApprovalGate → ApprovalGate × Settled
unfolding expire forget_waiter
give_up id r now g = (forget_waiter id (expire id now g), approval_timeout r)

unfoldable pub answered_by : ApprovalGate × Settled → ApprovalGate × Waiting
answered_by (g, out) = (g, answered out)

unfoldable pub wait_found :
    String → Timeout → ℕ → Option ApprovalRequest → ApprovalGate → ApprovalGate × Waiting
unfolding settled budget_of budget is_spent give_up answered_by is_pending
wait_found id t now none g = (g, answered not_found)
wait_found id t now (some r) g =
    if not (is_pending r) then (g, answered (settled r)) else elim (Dict.get g.waiters id) [
      | none ↦ (g, answered (approval_timeout r))
      | some set ↦
          let left = budget now (budget_of t g.timeout_s) r in
          if is_spent left then answered_by (give_up id r now g) else (g, blocked left)
    ]

-- `wait`, up to where it blocks.
unfoldable pub wait : String → Timeout → ℕ → ApprovalGate → ApprovalGate × Waiting
unfolding wait_found
wait id t now g = wait_found id t now (Dict.get g.requests id) g

unfoldable pub or_else : Option ApprovalRequest → ApprovalRequest → ApprovalRequest
or_else none r = r
or_else (some s) r = s

-- The event is set: `wait` goes on, with the request that it started with at hand.
unfoldable pub woken : String → ApprovalRequest → ApprovalGate → ApprovalGate × Settled
unfolding settled forget_waiter or_else
woken id r g = let g' = forget_waiter id g in (g', settled (or_else (Dict.get g'.requests id) r))

unfoldable pub expire_all : List ApprovalRequest → ℕ → ApprovalGate → ApprovalGate
expire_all [] now g = g
expire_all (r ∷ rs) now g = expire_all rs now (expire r.id now g)

unfoldable pub values_where :
    (ApprovalRequest → Bool) → Dict String ApprovalRequest → List ApprovalRequest
values_where p requests = keep_if p (Dict.values requests)

-- `live.sort(key=lambda r: r["requested_at"])`, which keeps the order of equals.
unfoldable pub by_age : ApprovalRequest → List ApprovalRequest → List ApprovalRequest
by_age r [] = r ∷ []
by_age r (q ∷ qs) =
    let rest = by_age r qs in if ltb q.requested_at r.requested_at then q ∷ rest else r ∷ q ∷ qs

unfoldable pub oldest_first : List ApprovalRequest → List ApprovalRequest
unfolding by_age
oldest_first [] = []
oldest_first (r ∷ rs) = by_age r (oldest_first rs)

-- `pending`: what an operator is offered, and the gate with those past their deadline settled.
unfoldable pub pending_requests : ℕ → ℕ → ApprovalGate → ApprovalGate × List ApprovalRequest
unfolding load expire_all values_where is_pending is_expired oldest_first
pending_requests now later g =
    let g' = load g in
    (
      expire_all (values_where (λ r. is_pending r && is_expired now r) g'.requests) later g',
      oldest_first (values_where (λ r. is_pending r && not (is_expired now r)) g'.requests),
    )
