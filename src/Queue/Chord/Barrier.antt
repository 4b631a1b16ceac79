-- ===== src/Queue/Chord/Barrier.antt =====
-- The barrier of a chord fires at the last of its members, with the results in member order.
use istos.Prelude.{
  ℕ, suc, zero, ◌<◌, ◌≡◌, refl, ◌⊎◌, inl, inr, true, false, ◌||◌, ◌∙◌, Option, none, some, In, List,
  [], ◌∷◌, ◌++◌, String, number_key, text_key, nat_beq_iff, arith, Bool-cases, pos, length,
  get_elem?, set, replicate, length-append, ◌==◌,
}
use istos.Dict
use istos.Dict.{Dict, get-set, get-remove}
use istos.Queue.State.{Chord, has}
use istos.Queue.Chord.{
  Report, waiting, complete, new_chord, counted, count_in, report_to, report, in_range,
}

-- A member's report to a chord of `n` members.
abbrev pub member : ℕ → ℕ × Option String → Report
member n m = record { index = pos m.0; size = pos n; result = m.1 }

-- Reports in turn, the last one first in the list.
abbrev pub reports :
    String → ℕ → ℕ → List (ℕ × Option String) → Dict String Chord → Dict String Chord
reports id now n [] chords = chords
reports id now n (m ∷ ms) chords = (report id now (member n m) (reports id now n ms chords)).0

-- No member twice, and all of them members of a chord of `n`.
abbrev pub Members : ℕ → List (ℕ × Option String) → Type 0
Members n [] = Unit {0}
Members n (m ∷ ms) = (m.0 < n) × ((r : Option String) → In (m.0, r) ms → ⊥) × Members n ms

-- What the chord holds once the members of the list have reported.
pub record Barrier (n : ℕ) (ms : List (ℕ × Option String)) (c : Chord) : Type 0 where
  pub size : c.size ≡ n
  pub open_still : c.fired ≡ false
  pub seen : length c.reported ≡ length ms
  pub room : length c.results ≡ n
  pub among : (i : ℕ) → has i c.reported ≡ true → (r : Option String) × In (i, r) ms
  pub kept : (i : ℕ) (r : Option String) → In (i, r) ms → get_elem? c.results i ≡ some r

length-set : (l : List (Option String)) (i : ℕ) (r : Option String) → length (set l i r) ≡ length l
length-set [] i r = refl
length-set (x ∷ l) zero r = refl
length-set (x ∷ l) (suc i) r = omega (arith, length-set l i r)

get_elem?-set :
    (l : List (Option String)) (i j : ℕ) (r : Option String)
    → i < length l
    → get_elem? (set l i r) j ≡ elim (i == j) [ true ↦ some r | false ↦ get_elem? l j ]
get_elem?-set [] i j r h = absurd (omega arith)
get_elem?-set (x ∷ l) zero zero r h = refl
get_elem?-set (x ∷ l) zero (suc j) r h = ground arith
get_elem?-set (x ∷ l) (suc i) zero r h = ground arith
get_elem?-set (x ∷ l) (suc i) (suc j) r h = ground (arith, get_elem?-set l i j r (omega arith))

length-replicate : (n : ℕ) → length (replicate {A = Option String} n none) ≡ n
length-replicate zero = refl
length-replicate (suc n) = omega (arith, length-replicate n)

has-append : (i j : ℕ) (l : List ℕ) → has i (l ++ j ∷ []) ≡ (has i l || (j == i))
unfolding has
has-append i j [] = ground arith
has-append i j (x ∷ l) = ground (arith, has-append i j l)

new_chord-Barrier : (now n : ℕ) → Barrier n [] (new_chord now n)
unfolding new_chord has
new_chord-Barrier now n = record {
  size = refl;
  open_still = refl;
  seen = refl;
  room = length-replicate n;
  among = λ i h. absurd (cc);
  kept = λ i r m. absurd m;
}

module _ (n : ℕ) (m : ℕ × Option String) (ms : List (ℕ × Option String)) (c : Chord) where
  counted-Barrier : Members n (m ∷ ms) → Barrier n ms c → Barrier n (m ∷ ms) (counted m.0 m.1 c)
  unfolding counted
  counted-Barrier members b = record {
    size = b.size;
    open_still = b.open_still;
    seen = omega (arith, length-append c.reported (m.0 ∷ []), b.seen);
    room = omega (arith, length-set c.results m.0 m.1, b.room);
    among = λ i h. found i (Bool-cases (m.0 == i)) (rw has-append at h);
    kept = λ i r q. at_member i r q;
  }
    where
      found :
          (i : ℕ)
          → (m.0 == i ≡ true) ⊎ (m.0 == i ≡ false)
          → (has i c.reported || (m.0 == i)) ≡ true
          → (r : Option String) × In (i, r) (m ∷ ms)
      found i (inl same) h = (m.1, ground (arith, nat_beq_iff m.0 i))
      found i (inr other) h = let old = b.among i (ground arith) in (old.0, inr old.1)

      at_member :
          (i : ℕ) (r : Option String)
          → In (i, r) (m ∷ ms)
          → get_elem? (set c.results m.0 m.1) i ≡ some r
      at_member i r q = ground (
        arith,
        get_elem?-set c.results m.0 i m.1,
        b.room,
        b.kept i r,
        members.1 r,
        nat_beq_iff m.0 i,
      )

  unseen : Members n (m ∷ ms) → Barrier n ms c → has m.0 c.reported ≡ false
  unseen members b = elim (Bool-cases (has m.0 c.reported)) [
    | inr fresh ↦ fresh
    | inl again ↦ let old = b.among m.0 again in absurd (members.1 old.0 old.1)
  ]

  count_in-waits :
      (id : String) (chords : Dict String Chord)
      → Members n (m ∷ ms)
      → Barrier n ms c
      → suc (length ms) < n
      → count_in id m.0 m.1 c chords ≡ (Dict.set chords id (counted m.0 m.1 c), waiting)
  unfolding count_in
  count_in-waits id chords members b more =
      let next = counted-Barrier members b in
      ground (arith, unseen members b, b.open_still, next.seen, b.size)

  count_in-completes :
      (id : String) (chords : Dict String Chord)
      → Members n (m ∷ ms)
      → Barrier n ms c
      → suc (length ms) ≡ n
      → count_in id m.0 m.1 c chords ≡ (Dict.remove chords id, complete (counted m.0 m.1 c).results)
  unfolding count_in
  count_in-completes id chords members b last =
      let next = counted-Barrier members b in
      ground (arith, unseen members b, b.open_still, next.seen, b.size)

-- Nothing under the id and no report yet, or a chord that holds the reports.
abbrev Stands : String → ℕ → List (ℕ × Option String) → Dict String Chord → Type 0
Stands id n ms chords =
    ((ms ≡ []) × (Dict.get chords id ≡ none))
    ⊎ ((c : Chord) × (Dict.get chords id ≡ some c) × Barrier n ms c)

-- The chord that a report finds or opens, and the dictionary that holds it.
opened :
    (id : String) (now n : ℕ) (m : ℕ × Option String) (ms : List (ℕ × Option String))
    (chords : Dict String Chord)
    → m.0 < n
    → Stands id n ms chords
    → (c : Chord) × (d : Dict String Chord) × Barrier n ms c
      × (report id now (member n m) chords ≡ count_in id m.0 m.1 c d)
unfolding report report_to in_range
opened id now n m ms chords lt (inl (empty, absent)) = (
  new_chord now n,
  Dict.set chords id (new_chord now n),
  rw empty (new_chord-Barrier now n),
  ground arith,
)
opened id now n m ms chords lt (inr (c, found, b)) = (c, chords, b, ground (arith, b.size))

report-Stands :
    (id : String) (now n : ℕ) (m : ℕ × Option String) (ms : List (ℕ × Option String))
    (chords : Dict String Chord)
    → Members n (m ∷ ms)
    → suc (length ms) < n
    → Stands id n ms chords
    → Stands id n (m ∷ ms) (report id now (member n m) chords).0
report-Stands id now n m ms chords members lt before =
    let o = opened id now n m ms chords members.0 before in
    let e = o.3 ∙ count_in-waits n m ms o.0 id o.1 members o.2 lt in
    rw e (
      inr (
        counted m.0 m.1 o.0,
        ground (arith, get-set o.1 id id (counted m.0 m.1 o.0), text_key.same_iff id id),
        counted-Barrier n m ms o.0 members o.2,
      ))

reports-Stands :
    (id : String) (now n : ℕ) (ms : List (ℕ × Option String)) (chords : Dict String Chord)
    → Dict.get chords id ≡ none
    → Members n ms
    → length ms < n
    → Stands id n ms (reports id now n ms chords)
reports-Stands id now n [] chords absent members lt = inl (refl, absent)
reports-Stands id now n (m ∷ ms) chords absent members lt =
    report-Stands id now n m ms (reports id now n ms chords) members lt
      (reports-Stands id now n ms chords absent members.2 (omega arith))

-- For a chord of `n` members under an unused id, whose members report once each in any order: while
-- fewer than `n` have reported, the reply is that the chord waits; the last report, and none before
-- it, is answered with the results, in which the entry at each member's index is that member's
-- result, and the chord is gone then.
pub barrier_fires :
    (id : String) (now n : ℕ) (m : ℕ × Option String) (ms : List (ℕ × Option String))
    (chords : Dict String Chord)
    → Dict.get chords id ≡ none
    → Members n (m ∷ ms)
    → let out = report id now (member n m) (reports id now n ms chords) in
      (suc (length ms) < n → out.1 ≡ waiting)
      × (suc (length ms) ≡ n
          → (rs : List (Option String)) × (out.1 ≡ complete rs)
            × (length rs ≡ n)
            × ((i : ℕ) (r : Option String) → In (i, r) (m ∷ ms) → get_elem? rs i ≡ some r)
            × (Dict.get out.0 id ≡ none))
barrier_fires id now n m ms chords absent members = (
  λ more.
      let o =
        opened id now n m ms (reports id now n ms chords) members.0
          (reports-Stands id now n ms chords absent members.2 (omega arith)) in
      rw (o.3, count_in-waits n m ms o.0 id o.1 members o.2 more),
  λ last.
      let o =
        opened id now n m ms (reports id now n ms chords) members.0
          (reports-Stands id now n ms chords absent members.2 (omega arith)) in
      let b = counted-Barrier n m ms o.0 members o.2 in
      let e = o.3 ∙ count_in-completes n m ms o.0 id o.1 members o.2 last in
      (
        (counted m.0 m.1 o.0).results,
        rw e,
        b.room,
        b.kept,
        rw e (ground (arith, get-remove o.1 id id, text_key.same_iff id id)),
      ),
)

-- A report of a member that the chord has counted is answered that the chord waits, and changes
-- nothing.
counted_twice :
    (id : String) (now n : ℕ) (m : ℕ × Option String) (c : Chord) (chords : Dict String Chord)
    → Dict.get chords id ≡ some c
    → m.0 < n
    → m.0 < c.size
    → has m.0 c.reported ≡ true
    → report id now (member n m) chords ≡ (chords, waiting)
unfolding report report_to in_range count_in
counted_twice id now n m c chords found lt fits again = ground arith

-- A chord of one member fires again when its only report is delivered again, whatever the results:
-- the dictionary forgets a chord that has fired.
pub one_member_refires :
    (id : String) (now later : ℕ) (r again : Option String) (chords : Dict String Chord)
    → Dict.get chords id ≡ none
    → let first = report id now (member 1 (0, r)) chords in
      (first.1 ≡ complete (r ∷ []))
      × ((report id later (member 1 (0, again)) first.0).1 ≡ complete (again ∷ []))
unfolding report report_to in_range count_in new_chord counted has
one_member_refires id now later r again chords absent =
    ground (arith, get-remove (Dict.set chords id (new_chord now 1)) id id, text_key.same_iff id id)
