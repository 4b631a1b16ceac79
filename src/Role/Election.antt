-- ===== src/Role/Election.antt =====
-- Binding and leader election of a queue owner (src/istos/queue/role.py).
use istos.Prelude.{
  ℕ, Bool, true, false, ◌&&◌, not, Option, none, some, List, [], ◌∷◌, ◌++◌, leb, if◌then◌else◌,
  number_key, ◌==◌, keep_if,
}
use istos.Queue.State.{QueueStore, add_id}
use istos.Queue.Upkeep.{load}

-- The queryables that the live owner binds.
pub data Verb : Type 0 where
  enqueue claim ack nack result dead chord : Verb

-- `bound` is that the role has a session, `watching` that it holds a liveliness token and a
-- subscriber.
pub record QueueRole : Type 0 where
  pub id : ℕ
  pub ha : Bool
  pub store : QueueStore
  pub members : List ℕ
  pub active : Bool
  pub queryables : List Verb
  pub sweeper : Bool
  pub bound : Bool
  pub watching : Bool

abbrev pub routes : List Verb
routes = enqueue ∷ claim ∷ ack ∷ nack ∷ result ∷ dead ∷ chord ∷ []

-- `_activate`; `now` is what `store.load` reads of the clock. Without a session its assertion fails
-- before anything is changed.
unfoldable pub activate : ℕ → QueueRole → QueueRole
activate now r =
    if r.bound
    then record r {
      store = load now r.store;
      queryables = r.queryables ++ routes;
      sweeper = true;
      active = true;
    }
    else r

unfoldable pub deactivate : QueueRole → QueueRole
deactivate r = record r { sweeper = false; queryables = []; active = false }

-- `min(self._members) if self._members else None`
unfoldable pub leader : List ℕ → Option ℕ
leader [] = none
leader (m ∷ ms) = elim (leader ms) [ none ↦ some m | some l ↦ some (if leb m l then m else l) ]

unfoldable pub is_me : ℕ → Option ℕ → Bool
is_me id none = false
is_me id (some l) = l == id

unfoldable pub reconcile : ℕ → QueueRole → QueueRole
unfolding is_me activate deactivate
reconcile now r =
    if is_me r.id (leader r.members) && not r.active
    then activate now r
    else if not (is_me r.id (leader r.members)) && r.active
    then deactivate r
    else r

-- A liveliness sample: a token appears (PUT) or is gone (DELETE).
pub data Sample : Type 0 where
  put delete : ℕ → Sample

unfoldable pub with_sample : Sample → List ℕ → List ℕ
with_sample (put i) ms = add_id i ms
with_sample (delete i) ms = keep_if (λ j. not (j == i)) ms

unfoldable pub on_membership : ℕ → Sample → QueueRole → QueueRole
unfolding reconcile with_sample
on_membership now sample r = reconcile now (record r { members = with_sample sample r.members })

unfoldable pub bind : ℕ → QueueRole → QueueRole
unfolding reconcile activate
bind now r =
    if r.ha
    then reconcile now (record r { bound = true; watching = true; members = add_id r.id r.members })
    else activate now (record r { bound = true })

unfoldable pub unbind : QueueRole → QueueRole
unbind r = record r {
  sweeper = false;
  queryables = [];
  watching = false;
  active = false;
  bound = false;
}
