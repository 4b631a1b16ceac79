-- ===== src/Channel/Logged.antt =====
-- What a durable channel remembers (src/istos/primitives/channel.py).
use istos.Prelude.{
  ℕ, zero, suc, ◌+◌, min, ◌≡◌, refl, sym, ap, ◌∙◌, Option, none, some, List, [], ◌∷◌, ◌++◌, String,
  pos, text_key, length, map, arith,
}
use mathlib.Core.List.{append_assoc, append-nil}
use istos.Dict
use istos.Dict.{Dict, get-set}
use istos.Json.{Json}
use istos.Ledger
use istos.Ledger.{Storage, Event, newest_first, take, logged, is_done, record_of}
use istos.Channel.{Entry, conversation_key, append, oldest_first, stored_history}

abbrev values : List (Event Entry) → List Entry
values es = map (λ e. e.value) es

oldest-append :
    (es : List (Event Entry)) (out : List Entry) → oldest_first es out ≡ oldest_first es [] ++ out
unfolding oldest_first
oldest-append [] out = refl
oldest-append (e ∷ es) out =
    oldest-append es (e.value ∷ out)
    ∙ sym (append_assoc (oldest_first es []) (e.value ∷ []) out)
    ∙ ap (λ (l : List Entry). l ++ out) (sym (oldest-append es (e.value ∷ [])))

oldest-newest :
    (es out : List (Event Entry))
    → oldest_first (newest_first es out) [] ≡ oldest_first out [] ++ values es
unfolding oldest_first newest_first
oldest-newest [] out = sym (append-nil (oldest_first out []))
oldest-newest (e ∷ es) out =
    oldest-newest es (e ∷ out)
    ∙ ap (λ (l : List Entry). l ++ values es) (oldest-append out (e.value ∷ []))
    ∙ append_assoc (oldest_first out []) (e.value ∷ []) (values es)

length-newest :
    (es out : List (Event Entry)) → length (newest_first es out) ≡ length es + length out
unfolding newest_first
length-newest [] out = omega arith
length-newest (e ∷ es) out = omega (arith, length-newest es (e ∷ out))

length-values : (es : List (Event Entry)) → length (values es) ≡ length es
length-values [] = omega arith
length-values (e ∷ es) = omega (arith, length-values es)

-- The last entries of a list, and as many as there are up to a limit.
abbrev pub IsEnd : ℕ → List Entry → List Entry → Type 0
IsEnd limit part all =
    (earlier : List Entry) × (earlier ++ part ≡ all) × (length part ≡ min limit (length all))

taken-ends :
    (n : ℕ) (es : List (Event Entry)) (out : List Entry)
    → (earlier : List Entry) × (earlier ++ oldest_first (take n es) out ≡ oldest_first es out)
      × (length (oldest_first (take n es) out) ≡ min n (length es) + length out)
unfolding take oldest_first
taken-ends zero es out = (oldest_first es [], sym (oldest-append es out), ground arith)
taken-ends (suc n) [] out = ([], refl, ground arith)
taken-ends (suc n) (e ∷ es) out =
    let (earlier, same, long) = taken-ends n es (e.value ∷ out) in
    (earlier, same, ground (arith, long))

pub stored-IsEnd :
    (id : String) (n : ℕ) (s : Storage Entry)
    → IsEnd n
        (stored_history id (pos n) s)
        (values (logged (Dict.get s.event_log (conversation_key id))))
unfolding stored_history Ledger.get_log
stored-IsEnd id n s =
    let es = logged (Dict.get s.event_log (conversation_key id)) in
    let (earlier, same, long) = taken-ends n (newest_first es []) [] in
    (
      earlier,
      same ∙ oldest-newest es [],
      ground (arith, long, length-newest es [], length-values es),
    )

map-append : (xs ys : List (Event Entry)) → values (xs ++ ys) ≡ values xs ++ values ys
map-append [] ys = refl
map-append (x ∷ xs) ys = ap (λ (l : List Entry). x.value ∷ l) (map-append xs ys)

module _ (id : String) where
  -- The log of the conversation.
  abbrev pub stored : Storage Entry → List Entry
  stored s = values (logged (Dict.get s.event_log (conversation_key id)))

  pub stored-append :
      (direction : String) (content : Json) (ts now : ℕ) (s : Storage Entry)
      → stored (append id direction content ts now s)
        ≡ stored s ++ record { direction = direction; content = content; ts = ts } ∷ []
  unfolding append Ledger.log is_done record_of logged
  stored-append direction content ts now s =
      ap (λ o. values (logged o)) (found (Dict.get s.event_log (conversation_key id)))
      ∙ map-append (logged (Dict.get s.event_log (conversation_key id))) (event ∷ [])
    where
      event : Event Entry
      event = record {
        value = record { direction = direction; content = content; ts = ts };
        timestamp = now;
        idempotency_key = none;
      }

      key : String
      key = conversation_key id

      found :
          (o : Option (List (Event Entry)))
          → Dict.get (Dict.set s.event_log key (logged o ++ event ∷ [])) key
            ≡ some (logged o ++ event ∷ [])
      found o =
          ground
            (arith, get-set s.event_log key key (logged o ++ event ∷ []), text_key.same_iff key key)
