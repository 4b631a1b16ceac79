-- ===== src/Queue/Chord.antt =====
-- `chord_report` of src/istos/queue/store.py: the barrier of a chord, which hands the collected
-- results to the report that completes it.
pub mod Barrier
use istos.Prelude.{
  ℕ, ◌≡◌, Bool, true, false, ◌&&◌, ◌||◌, not, Option, none, some, List, [], ◌∷◌, ◌++◌, String, ltb,
  leb, if◌then◌else◌, text_key, number_key, ◌==◌, ℤ, pos, negsuc, pos_part, length, set, replicate,
}
use istos.Dict
use istos.Dict.{Dict}
use istos.Queue.State.{QueueStore, Chord, has}

-- ValueError, None, or the collected results.
pub data ChordReply : Type 0 where
  invalid : ChordReply
  waiting : ChordReply
  complete : List (Option String) → ChordReply

-- One member's report: its index, the size that it claims for the chord, and its result.
pub record Report : Type 0 where
  pub index : ℤ
  pub size : ℤ
  pub result : Option String

-- `not (size <= 0 or index < 0 or index >= size)`
unfoldable pub in_range : ℤ → ℤ → Bool
in_range (pos i) (pos n) = ltb i n
in_range (pos i) (negsuc n) = false
in_range (negsuc i) n = false

unfoldable pub new_chord : ℕ → ℕ → Chord
new_chord now size = record {
  size = size;
  results = replicate size none;
  reported = [];
  fired = false;
  created_at = now;
}

unfoldable pub counted : ℕ → Option String → Chord → Chord
counted index result c = record c {
  reported = c.reported ++ index ∷ [];
  results = set c.results index result;
}

-- The report of a member, once its chord is at hand.
unfoldable pub count_in :
    String → ℕ → Option String → Chord → Dict String Chord → Dict String Chord × ChordReply
unfolding counted
count_in id index result c chords =
    if c.fired || has index c.reported
    then (chords, waiting)
    else if leb c.size (length (counted index result c).reported)
    then (Dict.remove chords id, complete (counted index result c).results)
    else (Dict.set chords id (counted index result c), waiting)

unfoldable pub report_to :
    String → ℕ → ℕ → Report → Option Chord → Dict String Chord → Dict String Chord × ChordReply
unfolding count_in new_chord
report_to id now index r none chords =
    count_in id index r.result (new_chord now (pos_part r.size))
      (Dict.set chords id (new_chord now (pos_part r.size)))
report_to id now index r (some c) chords =
    if leb c.size index then (chords, invalid) else count_in id index r.result c chords

-- The whole call, on the dictionary of chords.
unfoldable pub report : String → ℕ → Report → Dict String Chord → Dict String Chord × ChordReply
unfolding report_to in_range
report id now r chords =
    if in_range r.index r.size
    then report_to id now (pos_part r.index) r (Dict.get chords id) chords
    else (chords, invalid)

unfoldable pub chord_report : String → ℕ → Report → QueueStore → QueueStore × ChordReply
unfolding report
chord_report id now r s =
    let (chords, reply) = report id now r s.chords in (record s { chords = chords }, reply)
