-- ===== src/Worker/Examples.antt =====
-- Chains on a concrete mesh (src/istos/queue/worker.py).
use istos.Prelude.{
  ℕ, ◌≡◌, refl, ap, ◌∙◌, sym, true, false, Bool-cases, none, some, List, [], ◌∷◌, String, pos,
  text_key, number_key, ◌==◌, inl, inr, if◌then◌else◌,
}
use Prim.Native.Char.{Char, code}
use mathlib.Core.Option.{none-ne-some}
use istos.Dict
use istos.Dict.{Dict, get-empty, get-set_Either}
use istos.Queue.Job.{JobContext, Bytes}
use istos.Queue.State.{init}
use istos.Worker.Owner.{Owner, Posted, Instant, Later}
use istos.Worker.Flow.{Callback, Workflow, Codec, chain_only, rstrip}
use istos.Worker.Mesh.{
  Mesh, followed, acked, Outcome, returned, Act, first_step, claims, runs, carries_on, drops,
  sweeps, run,
}
use istos.Worker.Mesh.Steady.{IsFresh}
use istos.Worker.Mesh.Kept.{Decodes, IsKept}
use istos.Worker.Mesh.Lasting.{IsStart, chain-IsKept}

-- Prefixes as text: a dot before each character, a comma after each prefix.
abbrev prefix_then : String → String → String
prefix_then String.[] s = String.◌∷◌ "," s
prefix_then (String.◌∷◌ c p) s = String.◌∷◌ "." (String.◌∷◌ c (prefix_then p s))

abbrev text_of : List String → String
text_of [] = ""
text_of (p ∷ rest) = prefix_then p (text_of rest)

abbrev onto : Char → List String → List String
onto c [] = []
onto c (p ∷ rest) = String.◌∷◌ c p ∷ rest

abbrev prefixes_of : String → List String
prefixes_of String.[] = []
prefixes_of (String.◌∷◌ mark String.[]) = String.[] ∷ []
prefixes_of (String.◌∷◌ mark (String.◌∷◌ c s)) =
    if code mark == b',' then String.[] ∷ prefixes_of (String.◌∷◌ c s) else onto c (prefixes_of s)

after_comma : (s : String) → prefixes_of (String.◌∷◌ "," s) ≡ String.[] ∷ prefixes_of s
after_comma String.[] = refl
after_comma (String.◌∷◌ c s) = refl

prefixes_of-prefix_then : (p s : String) → prefixes_of (prefix_then p s) ≡ p ∷ prefixes_of s
prefixes_of-prefix_then String.[] s = after_comma s
prefixes_of-prefix_then (String.◌∷◌ c p) s = ap (onto c) (prefixes_of-prefix_then p s)

prefixes_of-text_of : (c : List String) → prefixes_of (text_of c) ≡ c
prefixes_of-text_of [] = refl
prefixes_of-text_of (p ∷ rest) =
    prefixes_of-prefix_then p (text_of rest) ∙ ap (λ l. p ∷ l) (prefixes_of-text_of rest)

-- A codec for chains, as an argument for the tests.
abbrev plain_codec : Codec
plain_codec = record {
  encode_wf = λ x. text_of x.chain;
  decode_wf = λ s. some (chain_only (prefixes_of s));
  b64encode = λ b. "";
  callback_body = λ callback results. some callback.body;
}

prefix_then-not_empty : (p s : String) → prefix_then p s == "" ≡ false
prefix_then-not_empty p s = elim (Bool-cases (prefix_then p s == "")) [
  | inr other ↦ other
  | inl same ↦
      let bad : p ∷ prefixes_of s ≡ [] =
        sym (prefixes_of-prefix_then p s)
        ∙ ap prefixes_of ((text_key.same_iff (prefix_then p s) "").0 same) in
      absurd (cc)
]

plain_codec-Decodes : Decodes plain_codec
plain_codec-Decodes = record {
  back = λ p rest. ap (λ l. some (chain_only l)) (prefixes_of-text_of (p ∷ rest));
  not_empty = λ p rest. prefix_then-not_empty p (text_of rest);
}

abbrev owner : Owner
owner = record {
  store =
      init
        (record {
          keep_results = true;
          result_ttl_s = 3600;
          dead_letter_ttl_s = none;
          chord_ttl_s = none;
        })
        none;
  max_attempts = 3;
  lease_s = 30;
}

abbrev mesh : Mesh
mesh = record {
  owners = Dict.set (Dict.set Dict.empty "fetch" owner) "parse" owner;
  busy = Dict.empty;
  log = [];
}

abbrev at_time : ℕ → ℕ → Instant
at_time id now = record { fresh_id = id; now = now; created = now; offered = now }

abbrev url : Posted
url = record {
  body = 1 ∷ [];
  priority = pos 0;
  delay_s = pos 0;
  wf = none;
  correlation_id = none;
  traceparent = none;
}

-- `chain(["fetch/", "parse"], ...)`
abbrev begins : Act
begins = first_step plain_codec "fetch/" ("parse" ∷ []) url (at_time 7 100)

abbrev later : Later
later = record { retry_delay_s = pos 0; now = 110; offered = 110 }

abbrev body : Bytes → JobContext → Outcome
body job ctx = returned (some (2 ∷ job))

-- One worker fetches, and enqueues what it got; another parses it.
abbrev both_steps : List Act
both_steps =
    begins
    ∷ claims 0 "fetch" 101
    ∷ runs 0 body later
    ∷ carries_on 0 (at_time 8 102)
    ∷ carries_on 0 (at_time 9 103)
    ∷ claims 1 "parse" 104
    ∷ runs 1 body later
    ∷ carries_on 1 (at_time 10 105)
    ∷ []

both_done :
    (run plain_codec mesh both_steps).log
    ≡ acked ("parse", 8) ∷ acked ("fetch", 7) ∷ followed ("fetch", 7) ("parse", 8) ∷ []
unfolding run Dict.get first_step Dict.set Dict.empty rstrip istos.Worker.Owner.on_claim
    istos.Queue.Store.claim istos.Queue.State.write_jobs istos.Queue.State.reclaim_leases
    istos.Queue.State.mature_delayed istos.Worker.Owner.on_enqueue istos.Queue.Store.add
    istos.Queue.State.offer_ready init istos.Heap.push istos.Worker.Flow.workflow_of
    istos.Worker.Flow.wf_for istos.Worker.Flow.calls_for istos.Worker.Owner.on_ack
    istos.Queue.Store.ack istos.Queue.State.write_job istos.Queue.State.write_index Dict.remove
both_done = refl

-- The worker ends between the body and the ack.
abbrev crashed : List Act
crashed = claims 0 "fetch" 101 ∷ runs 0 body later ∷ drops 0 ∷ sweeps "fetch" 200 ∷ []

is_owner : (p : String) (o : Owner) → Dict.get mesh.owners p ≡ some o → owner ≡ o
is_owner p o e = elim (get-set_Either (Dict.set Dict.empty "fetch" owner) "parse" owner p o e) [
  | inl ((at, is)) ↦ is
  | inr ((other, there)) ↦ elim (get-set_Either Dict.empty "fetch" owner p o there) [
    | inl ((at, is)) ↦ is
    | inr ((neither, found)) ↦ absurd (none-ne-some o (sym (get-empty p) ∙ found))
  ]
]

owner-no_jobs : (k : ℕ) → Dict.get owner.store.jobs k ≡ none
unfolding init
owner-no_jobs k = get-empty k

owner-keeps : owner.store.dead_letter_ttl_s ≡ none
unfolding init
owner-keeps = refl

mesh-IsStart : IsStart mesh
mesh-IsStart = record {
  idle = λ w. get-empty w;
  own = λ p o e k u found. absurd (
      none-ne-some u (
        sym (owner-no_jobs k)
        ∙ ap (λ (x : Owner). Dict.get x.store.jobs k) (is_owner p o e)
        ∙ found));
  keeps =
      λ p o e. ap (λ (x : Owner). x.store.dead_letter_ttl_s) (sym (is_owner p o e)) ∙ owner-keeps;
}

seven-IsFresh : IsFresh mesh 7
seven-IsFresh = (
  λ p o e. ap (λ (x : Owner). Dict.get x.store.jobs 7) (sym (is_owner p o e)) ∙ owner-no_jobs 7,
  λ w f e. absurd (none-ne-some f (sym (get-empty w) ∙ e)),
)

fetch_there : Dict.get (run plain_codec mesh []).owners (rstrip "fetch/") ≡ some owner
unfolding run Dict.get Dict.set Dict.empty rstrip
fetch_there = refl

chain-IsKept_example :
    IsKept plain_codec (run plain_codec mesh (begins ∷ crashed)) (rstrip "fetch/") 7 ("parse" ∷ [])
unfolding first_step
chain-IsKept_example =
    chain-IsKept plain_codec mesh [] crashed "fetch/" ("parse" ∷ []) url (at_time 7 100) owner
      plain_codec-Decodes mesh-IsStart (seven-IsFresh, (tt, (tt, (tt, (tt, tt))))) fetch_there
