-- ===== src/Agent/Trim.antt =====
-- `_trim_messages` of src/istos/agent/loop.py, and the sequences of messages that the API accepts.
use mathlib.Core.List.{append_assoc}
use istos.Prelude.{
  refl, ap, ◌∙◌, sym, subst, ℕ, zero, suc, ◌+◌, ◌-◌, ◌≤◌, ◌<◌, ◌≡◌, inl, inr, Option, none, some,
  List, [], ◌∷◌, ◌++◌, String, ltb, leb, if◌then◌else◌, length, arith, map, Bool-cases,
}
use istos.Agent.Messages.{CallMessage, Message, system, user, assistant, tool}

-- The leading system messages, and the others.
unfoldable pub head_of : List Message → List Message
head_of [] = []
head_of (system s ∷ ms) = system s ∷ head_of ms
head_of (user c ∷ ms) = []
head_of (assistant c calls ∷ ms) = []
head_of (tool id c ∷ ms) = []

unfoldable pub body_of : List Message → List Message
body_of [] = []
body_of (system s ∷ ms) = body_of ms
body_of (user c ∷ ms) = user c ∷ ms
body_of (assistant c calls ∷ ms) = assistant c calls ∷ ms
body_of (tool id c ∷ ms) = tool id c ∷ ms

unfoldable pub drop : ℕ → List Message → List Message
drop zero ms = ms
drop (suc n) [] = []
drop (suc n) (m ∷ ms) = drop n ms

-- `while tail and tail[0].get("role") == "tool": tail.pop(0)`
unfoldable pub drop_orphans : List Message → List Message
drop_orphans [] = []
drop_orphans (tool id c ∷ ms) = drop_orphans ms
drop_orphans (system s ∷ ms) = system s ∷ ms
drop_orphans (user c ∷ ms) = user c ∷ ms
drop_orphans (assistant c calls ∷ ms) = assistant c calls ∷ ms

-- ValueError is no result.
unfoldable pub trim_messages : List Message → ℕ → Option (List Message)
unfolding head_of body_of drop drop_orphans
trim_messages messages max_messages =
    if ltb max_messages 1
    then none
    else if leb (length (body_of messages)) max_messages
    then some messages
    else some (
        head_of messages
        ++ drop_orphans (drop (length (body_of messages) - max_messages) (body_of messages)))

abbrev pub ids : List CallMessage → List String
ids calls = map (λ c. c.id) calls

-- Each tool call of an assistant message is answered by the tool messages right after it, in the
-- order of the calls, and nothing else is answered. The list has the calls that wait for an answer.
abbrev pub Answers : List String → List Message → Type 0
Answers [] [] = Unit
Answers (i ∷ is) [] = ⊥
Answers [] (system s ∷ ms) = Answers [] ms
Answers [] (user c ∷ ms) = Answers [] ms
Answers [] (assistant c calls ∷ ms) = Answers (ids calls) ms
Answers [] (tool id c ∷ ms) = ⊥
Answers (i ∷ is) (tool id c ∷ ms) = (i ≡ id) × Answers is ms
Answers (i ∷ is) (system s ∷ ms) = ⊥
Answers (i ∷ is) (user c ∷ ms) = ⊥
Answers (i ∷ is) (assistant c calls ∷ ms) = ⊥

abbrev pub IsValid : List Message → Type 0
IsValid ms = Answers [] ms

drop_orphans-IsValid :
    (is : List String) (ms : List Message) → Answers is ms → IsValid (drop_orphans ms)
unfolding drop_orphans
drop_orphans-IsValid [] [] h = tt
drop_orphans-IsValid (i ∷ is) [] h = absurd h
drop_orphans-IsValid [] (system s ∷ ms) h = h
drop_orphans-IsValid [] (user c ∷ ms) h = h
drop_orphans-IsValid [] (assistant c calls ∷ ms) h = h
drop_orphans-IsValid [] (tool id c ∷ ms) h = absurd h
drop_orphans-IsValid (i ∷ is) (tool id c ∷ ms) h = drop_orphans-IsValid is ms h.1
drop_orphans-IsValid (i ∷ is) (system s ∷ ms) h = absurd h
drop_orphans-IsValid (i ∷ is) (user c ∷ ms) h = absurd h
drop_orphans-IsValid (i ∷ is) (assistant c calls ∷ ms) h = absurd h

-- A window that begins anywhere begins in the answers to some calls.
drop-Answers :
    (n : ℕ) (is : List String) (ms : List Message)
    → Answers is ms
    → (js : List String) × Answers js (drop n ms)
unfolding drop
drop-Answers zero is ms h = (is, h)
drop-Answers (suc n) [] [] h = ([], tt)
drop-Answers (suc n) (i ∷ is) [] h = absurd h
drop-Answers (suc n) [] (system s ∷ ms) h = drop-Answers n [] ms h
drop-Answers (suc n) [] (user c ∷ ms) h = drop-Answers n [] ms h
drop-Answers (suc n) [] (assistant c calls ∷ ms) h = drop-Answers n (ids calls) ms h
drop-Answers (suc n) [] (tool id c ∷ ms) h = absurd h
drop-Answers (suc n) (i ∷ is) (tool id c ∷ ms) h = drop-Answers n is ms h.1
drop-Answers (suc n) (i ∷ is) (system s ∷ ms) h = absurd h
drop-Answers (suc n) (i ∷ is) (user c ∷ ms) h = absurd h
drop-Answers (suc n) (i ∷ is) (assistant c calls ∷ ms) h = absurd h

body-IsValid : (ms : List Message) → IsValid ms → IsValid (body_of ms)
unfolding body_of
body-IsValid [] h = tt
body-IsValid (system s ∷ ms) h = body-IsValid ms h
body-IsValid (user c ∷ ms) h = h
body-IsValid (assistant c calls ∷ ms) h = h
body-IsValid (tool id c ∷ ms) h = absurd h

head-append-IsValid : (ms tail : List Message) → IsValid tail → IsValid (head_of ms ++ tail)
unfolding head_of
head-append-IsValid [] tail h = h
head-append-IsValid (system s ∷ ms) tail h = head-append-IsValid ms tail h
head-append-IsValid (user c ∷ ms) tail h = h
head-append-IsValid (assistant c calls ∷ ms) tail h = h
head-append-IsValid (tool id c ∷ ms) tail h = h

length-drop : (n : ℕ) (ms : List Message) → length (drop n ms) ≡ length ms - n
unfolding drop
length-drop zero ms = omega arith
length-drop (suc n) [] = omega arith
length-drop (suc n) (m ∷ ms) = omega (arith, length-drop n ms)

length-drop_orphans : (ms : List Message) → length (drop_orphans ms) ≤ length ms
unfolding drop_orphans
length-drop_orphans [] = omega arith
length-drop_orphans (tool id c ∷ ms) = omega (arith, length-drop_orphans ms)
length-drop_orphans (system s ∷ ms) = omega arith
length-drop_orphans (user c ∷ ms) = omega arith
length-drop_orphans (assistant c calls ∷ ms) = omega arith

length-head-body : (ms : List Message) → length ms ≡ length (head_of ms) + length (body_of ms)
unfolding head_of body_of
length-head-body [] = omega arith
length-head-body (system s ∷ ms) = omega (arith, length-head-body ms)
length-head-body (user c ∷ ms) = omega arith
length-head-body (assistant c calls ∷ ms) = omega arith
length-head-body (tool id c ∷ ms) = omega arith

head-drop-body : (n : ℕ) (ms : List Message) → (gone : List Message) × (ms ≡ gone ++ drop n ms)
unfolding drop
head-drop-body zero ms = ([], refl)
head-drop-body (suc n) [] = ([], refl)
head-drop-body (suc n) (m ∷ ms) =
    let (gone, e) = head-drop-body n ms in (m ∷ gone, ap (λ l. m ∷ l) e)

drop_orphans-suffix : (ms : List Message) → (gone : List Message) × (ms ≡ gone ++ drop_orphans ms)
unfolding drop_orphans
drop_orphans-suffix [] = ([], refl)
drop_orphans-suffix (tool id c ∷ ms) =
    let (gone, e) = drop_orphans-suffix ms in (tool id c ∷ gone, ap (λ l. tool id c ∷ l) e)
drop_orphans-suffix (system s ∷ ms) = ([], refl)
drop_orphans-suffix (user c ∷ ms) = ([], refl)
drop_orphans-suffix (assistant c calls ∷ ms) = ([], refl)

-- System messages only, and a list that does not start with one.
abbrev pub AllSystem : List Message → Type 0
AllSystem [] = Unit {0}
AllSystem (system s ∷ ms) = AllSystem ms
AllSystem (user c ∷ ms) = ⊥
AllSystem (assistant c calls ∷ ms) = ⊥
AllSystem (tool id c ∷ ms) = ⊥

abbrev pub StartsOther : List Message → Type 0
StartsOther [] = Unit {0}
StartsOther (system s ∷ ms) = ⊥
StartsOther (user c ∷ ms) = Unit {0}
StartsOther (assistant c calls ∷ ms) = Unit {0}
StartsOther (tool id c ∷ ms) = Unit {0}

split :
    (ms : List Message)
    → (ms ≡ head_of ms ++ body_of ms) × AllSystem (head_of ms) × StartsOther (body_of ms)
unfolding head_of body_of
split [] = (refl, tt, tt)
split (system s ∷ ms) = let (e, all, starts) = split ms in (ap (λ l. system s ∷ l) e, all, starts)
split (user c ∷ ms) = (refl, tt, tt)
split (assistant c calls ∷ ms) = (refl, tt, tt)
split (tool id c ∷ ms) = (refl, tt, tt)

-- The leading system messages of a conversation, then what is dropped of the others and what is kept.
pub record Window (ms : List Message) (max_messages : ℕ) (out : List Message) : Type 0 where
  pub head : List Message
  pub dropped : List Message
  pub kept : List Message
  pub whole : ms ≡ head ++ (dropped ++ kept)
  pub leading : AllSystem head
  pub others : StartsOther (dropped ++ kept)
  pub result : out ≡ head ++ kept
  pub bound : length kept ≤ max_messages
  pub unneeded : length (dropped ++ kept) ≤ max_messages → dropped ≡ []

-- With a maximum above 0, trimming a valid sequence gives a valid one: all its leading system messages,
-- and then of the others the last ones, at most the maximum, and all if they are no more.
pub trim-IsValid :
    (ms : List Message) (max_messages : ℕ)
    → IsValid ms
    → 0 < max_messages
    → (out : List Message) × (trim_messages ms max_messages ≡ some out)
      × IsValid out
      × Window ms max_messages out
unfolding trim_messages
trim-IsValid ms n valid pos =
    let (whole, leading, others) = split ms in
    elim (Bool-cases (leb (length (body_of ms)) n)) [
      | inl fits ↦ (
        ms,
        ground (arith, fits),
        valid,
        record {
          head = head_of ms;
          dropped = [];
          kept = body_of ms;
          whole = whole;
          leading = leading;
          others = others;
          result = whole;
          bound = ground (arith, fits);
          unneeded = λ few. refl;
        },
      )
      | inr over ↦
          let k = length (body_of ms) - n in
          let window = drop-Answers k [] (body_of ms) (body-IsValid ms valid) in
          let (first, e) = head-drop-body k (body_of ms) in
          let (second, f) = drop_orphans-suffix (drop k (body_of ms)) in
          let kept = drop_orphans (drop k (body_of ms)) in
          let all : body_of ms ≡ (first ++ second) ++ kept =
            e ∙ ap (λ l. first ++ l) f ∙ sym (append_assoc first second kept) in
          (
            head_of ms ++ kept,
            ground (arith, over),
            head-append-IsValid ms kept
                (drop_orphans-IsValid window.0 (drop k (body_of ms)) window.1),
            record {
              head = head_of ms;
              dropped = first ++ second;
              kept = kept;
              whole = whole ∙ ap (λ l. head_of ms ++ l) all;
              leading = leading;
              others = subst StartsOther all others;
              result = refl;
              bound =
                  omega
                    (arith, length-drop_orphans (drop k (body_of ms)), length-drop k (body_of ms));
              unneeded = λ few.
                  absurd (ground (arith, over, ap (λ (l : List Message). length l) all, few));
            },
          )
    ]
