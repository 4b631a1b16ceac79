-- ===== src/Worker/Mesh/Calls.antt =====
-- What the calls of a worker that has finished a body (src/istos/queue/worker.py) do to the jobs, the claimed
-- jobs and the log; and what any event does.
use istos.Prelude.{
  ℕ, ◌≡◌, refl, sym, ap, subst, ◌∙◌, inl, inr, Bool, true, false, Option, none, some, List, [], ◌∷◌,
  In, String, number_key, text_key, arith, Option-cases,
}
use istos.Dict
use istos.Dict.{Dict}
use istos.Queue.Job.{Bytes}
use istos.Worker.Owner.{Owner, Posted, Instant, on_enqueue, on_ack, on_chord}
use istos.Worker.Flow.{
  Callback, ChordPart, Codec, Call, follows, reports, calls_back, acknowledges, rstrip, wf_for,
}
use istos.Worker.Mesh.{
  Flight, Mesh, followed, acked, end_turn, put_owner, goes_on, note, posted, follow_at,
  after_report, report_at, callback_at, acknowledged, ack_at, make_call, next_call, Act, enqueues,
  sweeps, claims, runs, carries_on, drops, act,
}
use istos.Worker.Mesh.Grows.{
  NoneNew, on_ack-Grows, on_ack-Lasting, on_chord-same, on_enqueue-Grows, on_enqueue-Lasting,
}
use istos.Worker.Mesh.Steady.{Steady, IsFresh, Moved-Steady, put-Open_or}
use istos.Worker.Mesh.Acts.{
  Acking, Advance, Grown, dropped, continued, quiet, one-Moved, one_owner, stays, widen, IdOf,
  end_turn-Advance, queue_enqueue-Advance, sweep_owner-Advance, claim_at-Advance,
  run_body_at-Advance,
}

module _ (code : Codec) (m : Mesh) (w : ℕ) (f : Flight) (i : Instant)
    (busy : Dict.get m.busy w ≡ some f) where
  -- An enqueue, after which the loop goes on.
  posted-Advance :
      (n : Mesh) (p : String) (o : Owner) (q : Posted) (calls : List Call)
      → IsFresh m i.fresh_id
      → Dict.get m.owners p ≡ some o
      → n.owners ≡ Dict.set m.owners p (on_enqueue q i o).0
      → n.busy ≡ Dict.set m.busy w (record f { todo = some calls })
      → Grown m n
      → Advance (IdOf i) m n
  posted-Advance n p o q calls fresh e owners_are busy_is grown =
      one_owner (IdOf i) m n
        (continued m n w f (record f { todo = some calls }) busy (refl, refl) busy_is) grown p o
        (on_enqueue q i o).0 owners_are e (on_enqueue-Grows o q i)
        (on_enqueue-Lasting o q i (fresh.0 p o e))

  follow_at-Advance :
      (next : String) (rest : List String) (result : Bytes) (calls : List Call)
      → IsFresh m i.fresh_id
      → Advance (IdOf i) m (follow_at code w f next rest result calls i m)
  unfolding follow_at goes_on put_owner note
  follow_at-Advance next rest result calls fresh =
      elim (Option-cases (Dict.get m.owners (rstrip next))) [
        | inl missing ↦ rw (follow_at, missing) (end_turn-Advance (IdOf i) m w)
        | inr ((o, e)) ↦
            rw (follow_at, e)
              (posted-Advance
                (note
                  (followed (f.prefix, f.job.job_id)
                    (rstrip next, (on_enqueue (posted result (wf_for code rest)) i o).1))
                  (goes_on w f calls (
                    put_owner (rstrip next) (on_enqueue (posted result (wf_for code rest)) i o).0
                      m)))
                (rstrip next) o (posted result (wf_for code rest)) calls fresh e refl refl
                (λ x h. inr h))
      ]

  callback_at-Advance :
      (callback : Callback) (results : List (Option String)) (calls : List Call)
      → IsFresh m i.fresh_id
      → Advance (IdOf i) m (callback_at code w f callback results calls i m)
  unfolding callback_at goes_on put_owner
  callback_at-Advance callback results calls fresh =
      elim (Option-cases (code.callback_body callback results)) [
        | inl unsent ↦ rw (callback_at, unsent) (end_turn-Advance (IdOf i) m w)
        | inr ((body, sent)) ↦ elim (Option-cases (Dict.get m.owners (rstrip callback.prefix))) [
          | inl missing ↦ rw (callback_at, sent, missing) (end_turn-Advance (IdOf i) m w)
          | inr ((o, e)) ↦
              rw (callback_at, sent, e)
                (posted-Advance
                  (goes_on w f calls
                    (put_owner (rstrip callback.prefix) (on_enqueue (posted body none) i o).0 m))
                  (rstrip callback.prefix) o (posted body none) calls fresh e refl refl (λ x h. h))
        ]
      ]

  report_at-Advance :
      (part : ChordPart) (result : Bytes) (calls : List Call)
      → Advance (IdOf i) m (report_at code w f part result calls i m)
  unfolding report_at goes_on put_owner
  report_at-Advance part result calls = elim (Option-cases (Dict.get m.owners f.prefix)) [
    | inl missing ↦
        rw (report_at, missing)
          (quiet (IdOf i) m (goes_on w f calls m)
            (continued m (goes_on w f calls m) w f (record f { todo = some calls }) busy
              (refl, refl) refl)
            (λ x h. h) refl)
    | inr ((o, e)) ↦
        let t = (on_chord part.id part.index part.size (code.b64encode result) i.now o).0 in
        let reply = (on_chord part.id part.index part.size (code.b64encode result) i.now o).1 in
        let left = after_report code part.callback reply calls in
        let n = goes_on w f left (put_owner f.prefix t m) in
        let same = on_chord-same o part.id part.index part.size (code.b64encode result) i.now in
        rw (report_at, e)
          (one_owner (IdOf i) m n
            (continued m n w f (record f { todo = some left }) busy (refl, refl) refl) (λ x h. h)
            f.prefix o t refl e
            (record {
              settings = same.1;
              origin = λ k u h. inl (u, ap (λ d. Dict.get d k) (sym same.0) ∙ h, refl, refl);
            })
            (λ k wf x. (x.0, ap (λ d. Dict.get d k) same.0 ∙ x.1, x.2, x.3)))
  ]

  acked-Advance :
      (n : Mesh) (o : Owner) (result : Bytes) (calls : List Call)
      → f.todo ≡ some (acknowledges result ∷ calls)
      → Dict.get m.owners f.prefix ≡ some o
      → n.owners
        ≡ Dict.set m.owners f.prefix (on_ack f.job.job_id result (some f.job.attempt) i.now o).0
      → n.busy ≡ Dict.remove m.busy w
      → Grown m n
      → ((on_ack f.job.job_id result (some f.job.attempt) i.now o).1 ≡ true
          → In (acked (f.prefix, f.job.job_id)) n.log)
      → Advance (IdOf i) m n
  acked-Advance n o result calls todo e owners_are busy_is grown logged = record {
    moved =
        one-Moved (IdOf i) m n (dropped m n w busy_is) grown f.prefix o
          (on_ack f.job.job_id result (some f.job.attempt) i.now o).0 owners_are e
          (widen (IdOf i) _ _ (on_ack-Grows o f.job.job_id result (some f.job.attempt) i.now));
    grown = grown;
    lasts = λ p k wf x.
        put-Open_or (Acking m n p k) m n f.prefix o
          (on_ack f.job.job_id result (some f.job.attempt) i.now o).0 owners_are e p k wf
          (λ at y. elim (on_ack-Lasting o f.job.job_id result (some f.job.attempt) i.now k wf y) [
            | inl stays ↦ inl stays
            | inr ((same, accepted)) ↦ inr (
              w,
              f,
              result,
              calls,
              busy,
              todo,
              at,
              same,
              subst (λ (e : String × ℕ). In (acked e) n.log) (cc) (logged accepted),
            )
          ])
          x;
  }

  ack_at-Advance :
      (result : Bytes) (calls : List Call)
      → f.todo ≡ some (acknowledges result ∷ calls)
      → Advance (IdOf i) m (ack_at code w f result i m)
  unfolding ack_at end_turn put_owner
  ack_at-Advance result calls todo = elim (Option-cases (Dict.get m.owners f.prefix)) [
    | inl missing ↦ rw (ack_at, missing) (end_turn-Advance (IdOf i) m w)
    | inr ((o, e)) ↦ rw (ack_at, e) (answered o e _ refl)
  ]
    where
      answered :
          (o : Owner)
          → Dict.get m.owners f.prefix ≡ some o
          → (ok : Bool) → (on_ack f.job.job_id result (some f.job.attempt) i.now o).1 ≡ ok
          → Advance (IdOf i) m (
              end_turn w (
                acknowledged code f ok (
                  put_owner f.prefix
                    (on_ack f.job.job_id result (some f.job.attempt) i.now o).0
                    m)))
      answered o e true ok =
          acked-Advance _ o result calls todo e refl refl (λ x h. inr h) (λ t. inl refl)
      answered o e false ok =
          acked-Advance _ o result calls todo e refl refl (λ x h. h)
            (λ t. absurd (ground (arith, t, ok)))

  make_call-Advance :
      (calls : List Call)
      → f.todo ≡ some calls
      → IsFresh m i.fresh_id
      → Advance (IdOf i) m (make_call code w f calls i m)
  unfolding make_call
  make_call-Advance [] todo fresh = end_turn-Advance (IdOf i) m w
  make_call-Advance (follows next rest result ∷ calls) todo fresh =
      follow_at-Advance next rest result calls fresh
  make_call-Advance (reports part result ∷ calls) todo fresh = report_at-Advance part result calls
  make_call-Advance (calls_back callback results ∷ calls) todo fresh =
      callback_at-Advance callback results calls fresh
  make_call-Advance (acknowledges result ∷ calls) todo fresh = ack_at-Advance result calls todo

-- The ids that an event may file a job under, and that they are fresh.
abbrev pub NewIn : Act → ℕ → Type 0
NewIn (enqueues prefix p i) = IdOf i
NewIn (carries_on w i) = IdOf i
NewIn _ = NoneNew

abbrev pub Allowed : Mesh → Act → Type 0
Allowed m (enqueues prefix p i) = IsFresh m i.fresh_id
Allowed m (carries_on w i) = IsFresh m i.fresh_id
Allowed m _ = Unit {0}

module _ (code : Codec) where
  next_call-Advance :
      (m : Mesh) (w : ℕ) (i : Instant)
      → IsFresh m i.fresh_id
      → Advance (IdOf i) m (next_call code w i m)
  unfolding next_call
  next_call-Advance m w i fresh = elim (Option-cases (Dict.get m.busy w)) [
    | inl idle ↦ rw (next_call, idle) (stays (IdOf i) m)
    | inr ((f, e)) ↦ elim (Option-cases f.todo) [
      | inl running ↦ rw (next_call, e, running) (stays (IdOf i) m)
      | inr ((calls, todo)) ↦
          rw (next_call, e, todo) (make_call-Advance code m w f i e calls todo fresh)
    ]
  ]

  pub act-Advance :
      (m : Mesh) (a : Act) → Steady m → Allowed m a → Advance (NewIn a) m (act code m a)
  unfolding act
  act-Advance m (enqueues prefix p i) s fresh = queue_enqueue-Advance m prefix p i fresh
  act-Advance m (sweeps p now) s fresh = sweep_owner-Advance m p now s
  act-Advance m (claims w p now) s fresh = claim_at-Advance m w p now s
  act-Advance m (runs w func l) s fresh = run_body_at-Advance code m w func l
  act-Advance m (carries_on w i) s fresh = next_call-Advance m w i fresh
  act-Advance m (drops w) s fresh = end_turn-Advance NoneNew m w

  new-IsFresh : (m : Mesh) (a : Act) → Allowed m a → (k : ℕ) → NewIn a k → IsFresh m k
  new-IsFresh m (enqueues prefix p i) fresh k is = subst (IsFresh m) (sym is) fresh
  new-IsFresh m (carries_on w i) fresh k is = subst (IsFresh m) (sym is) fresh
  new-IsFresh m (sweeps p now) fresh k is = absurd is
  new-IsFresh m (claims w p now) fresh k is = absurd is
  new-IsFresh m (runs w func l) fresh k is = absurd is
  new-IsFresh m (drops w) fresh k is = absurd is

  pub act-Steady : (m : Mesh) (a : Act) → Steady m → Allowed m a → Steady (act code m a)
  act-Steady m a s ok =
      Moved-Steady (NewIn a) m (act code m a) (new-IsFresh m a ok) (act-Advance m a s ok).moved s
