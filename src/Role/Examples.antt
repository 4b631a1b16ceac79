-- ===== src/Role/Examples.antt =====
-- Tests of the queue owner (src/istos/queue/role.py), and its theorems at concrete replicas.
use istos.Prelude.{◌↔◌, ℕ, ◌≡◌, refl, true, false, none, List, [], ◌∷◌, arith}
use istos.Queue.State.{init, has, add_id}
use istos.Role.Election.{
  QueueRole, put, delete, leader, on_membership, is_me, reconcile, with_sample,
}
use istos.Role.Leader.{IsLeast, on_membership-IsElected, one_leader}

abbrev replica : ℕ → List ℕ → QueueRole
replica id members = record {
  id = id;
  ha = true;
  store =
      init
        (record {
          keep_results = false;
          result_ttl_s = 0;
          dead_letter_ttl_s = none;
          chord_ttl_s = none;
        })
        none;
  members = members;
  active = false;
  queryables = [];
  sweeper = false;
  bound = true;
  watching = true;
}

-- Replicas 3 and 5 each see the other's token.
one_leader_example : (on_membership 11 (put 3) (replica 5 (5 ∷ []))).active ≡ false
unfolding on_membership reconcile leader add_id has is_me with_sample
one_leader_example =
    one_leader 10 11 (put 5) (put 3) (replica 3 (3 ∷ [])) (replica 5 (5 ∷ [])) (λ i. ground arith)
      (omega arith) refl

on_membership-IsElected_example :
    ((on_membership 10 (delete 3) (replica 5 (3 ∷ 5 ∷ []))).active ≡ true)
    ↔ IsLeast 5 (with_sample (delete 3) (3 ∷ 5 ∷ []))
on_membership-IsElected_example =
    on_membership-IsElected 10 (delete 3) (replica 5 (3 ∷ 5 ∷ [])) refl
