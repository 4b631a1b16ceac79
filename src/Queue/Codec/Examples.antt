-- ===== src/Queue/Codec/Examples.antt =====
-- A job record and its dictionary (src/istos/queue/store.py).
use istos.Prelude.{
  ℕ, zero, suc, ◌≡◌, refl, ap, ◌∙◌, none, some, [], ◌∷◌, number_key, ◌==◌, if◌then◌else◌, negsuc,
  String,
}
use Prim.Native.Char.{code}
use istos.Json.{text, end, field}
use istos.Queue.Job.{JobState, JobRecord, Bytes}
use istos.Queue.Codec.{Texts, ReadsBack, to_fields, record_from_dict, record_from_dict-to_fields}

-- Ids and bytes in unary, as arguments for the tests.
abbrev tally : ℕ → String
tally zero = ""
tally (suc n) = String.◌∷◌ "1" (tally n)

abbrev tally_of : String → ℕ
tally_of String.[] = 0
tally_of (String.◌∷◌ c s) = suc (tally_of s)

abbrev tally_then : ℕ → String → String
tally_then zero s = String.◌∷◌ "," s
tally_then (suc n) s = String.◌∷◌ "1" (tally_then n s)

abbrev tallies : Bytes → String
tallies [] = ""
tallies (b ∷ bs) = tally_then b (tallies bs)

abbrev bump : Bytes → Bytes
bump [] = []
bump (b ∷ bs) = suc b ∷ bs

abbrev tallies_of : String → Bytes
tallies_of String.[] = []
tallies_of (String.◌∷◌ c s) =
    let rest = tallies_of s in if code c == b',' then 0 ∷ rest else bump rest

tally_of-tally : (n : ℕ) → tally_of (tally n) ≡ n
tally_of-tally zero = refl
tally_of-tally (suc n) = ap suc (tally_of-tally n)

tallies_of-tally_then : (n : ℕ) (s : String) → tallies_of (tally_then n s) ≡ n ∷ tallies_of s
tallies_of-tally_then zero s = refl
tallies_of-tally_then (suc n) s = ap bump (tallies_of-tally_then n s)

tallies_of-tallies : (b : Bytes) → tallies_of (tallies b) ≡ b
tallies_of-tallies [] = refl
tallies_of-tallies (b ∷ bs) =
    tallies_of-tally_then b (tallies bs) ∙ ap (λ l. b ∷ l) (tallies_of-tallies bs)

abbrev plain_texts : Texts
plain_texts = record {
  id_text = tally;
  id_of = λ s. some (tally_of s);
  b64encode = tallies;
  b64decode = λ s. some (tallies_of s);
}

plain_texts-ReadsBack : ReadsBack plain_texts
plain_texts-ReadsBack = record {
  id_back = λ n. ap some (tally_of-tally n);
  b64_back = λ b. ap some (tallies_of-tallies b);
}

-- A job that has failed once and is out again.
abbrev tried : JobRecord
tried = record {
  id = 7;
  body = 1 ∷ 0 ∷ 2 ∷ [];
  state = JobState.leased;
  attempts = 2;
  max_attempts = 5;
  enqueued_at = 100;
  lease_until = 160;
  not_before = 0;
  priority = negsuc 1;
  seq = 3;
  last_error = some "timeout";
  result = none;
  completed_at = 0;
  wf = none;
  correlation_id = some "c";
  traceparent = none;
}

record_from_dict-to_fields_example :
    record_from_dict plain_texts (to_fields plain_texts tried (field "region" (text "eu") end))
    ≡ some tried
record_from_dict-to_fields_example =
    record_from_dict-to_fields plain_texts plain_texts-ReadsBack tried
      (field "region" (text "eu") end)
