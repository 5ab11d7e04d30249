-- ===== src/Stream/Delivery.antt =====
-- The stream of services/control-plane/internal/httpapi/run_events.go: lemmas on what was sent.
use harness_forge.Base.{
  ℕ, suc, ◌≤◌, ◌<◌, false, ◌≡◌, ◌⊎◌, inl, inr, refl, sym, ap, ◌∙◌, some, List, [], ◌∷◌, ◌++◌, arith,
  Bool-cases, ltb, ◌==◌, ==_iff,
}
use mathlib.Core.List.{append-nil, append_assoc}
use harness_forge.Base.Tables.{where_rows}
use harness_forge.Schema.{Run, Event, Database, ok, find_run}
use harness_forge.Events.{append_event_tx, list_events, count_event}
use harness_forge.Events.Sequence.{
  events_of, Ascending, IsSequenced, after, after-append, after_low, after_keep, after_drop,
  after-nil, Ascending-after, Ascending-le, list_events-after,
}
use harness_forge.Events.Sequence.Append.{
  append_cases, with_event-IsSequenced, numbered, with_event, find-with_event, events_of-with_event,
}
use harness_forge.Stream.{Stream, send, poll}

-- What happens to a stream and its database: an append by anyone, or a round of the stream.
pub data Streams (id : ℕ) (db₀ : Database) (s₀ : Stream) : Database → Stream → Type 0 where
  begun : Streams id db₀ s₀ db₀ s₀
  appended :
      {db : Database} {s : Stream}
      → Streams id db₀ s₀ db s
      → (event row : Event) (db' : Database) → append_event_tx event db ≡ ok (row, db')
      → Streams id db₀ s₀ db' s
  polled :
      {db : Database} {s : Stream} → Streams id db₀ s₀ db s → Streams id db₀ s₀ db (poll id db s)

abbrev pub opened : ℕ → Stream
opened start = record { cursor = start; sent = [] }

last_or : ℕ → List Event → ℕ
last_or n [] = n
last_or n (e ∷ es) = last_or e.sequence es

send-eq :
    (es : List Event) (s : Stream)
    → send es s ≡ record { cursor = last_or s.cursor es; sent = s.sent ++ es }
unfolding send last_or
send-eq [] s = rw append-nil
send-eq (e ∷ es) s = send-eq es _ ∙ rw append_assoc

le-last_or : (n m : ℕ) (es : List Event) → n ≤ m → n ≤ last_or m (after n es)
unfolding last_or after where_rows
le-last_or n m [] h = h
le-last_or n m (e ∷ es) h = elim (Bool-cases (ltb n e.sequence)) [
  | inl t ↦ rw t (le-last_or n e.sequence es (ground arith))
  | inr f ↦ rw f (le-last_or n m es h)
]

last_or-lt :
    (m lo : ℕ) (es : List Event) (hi : ℕ)
    → Ascending lo es hi
    → (last_or m es ≡ m) ⊎ (last_or m es < hi)
unfolding last_or
last_or-lt m lo [] hi h = inl refl
last_or-lt m lo (e ∷ es) hi h = elim (last_or-lt e.sequence (suc e.sequence) es hi h.1) [
  | inl same ↦ inr (rw same (Ascending-le (suc e.sequence) es hi h.1))
  | inr below ↦ inr below
]

-- nothing is left behind the last event that was read
after-last_or :
    (n lo : ℕ) (es : List Event) (hi : ℕ)
    → Ascending lo es hi
    → after (last_or n (after n es)) es ≡ []
unfolding last_or
after-last_or n lo [] hi h = rw (after-nil n) (after-nil n)
after-last_or n lo (e ∷ es) hi h = elim (Bool-cases (ltb n e.sequence)) [
  | inl t ↦
      let all : after n es ≡ es = after_low n (suc e.sequence) es hi h.1 (ground arith) in
      let rest : after e.sequence es ≡ es =
        after_low e.sequence (suc e.sequence) es hi h.1 (omega arith) in
      let behind : e.sequence ≤ last_or e.sequence es =
        rw rest at (le-last_or e.sequence e.sequence es (omega arith)) in
      let ih : after (last_or e.sequence es) es ≡ [] =
        rw rest at (after-last_or e.sequence (suc e.sequence) es hi h.1) in
      rw (after_keep n e es (ground arith), all) (after_drop _ e es behind ∙ ih)
  | inr f ↦ rw (after_drop n e es (ground arith)) (
      after_drop _ e es (omega (arith, le-last_or n n es (omega arith), not_lt f))
      ∙ after-last_or n (suc e.sequence) es hi h.1)
]
  where
    not_lt : ltb n e.sequence ≡ false → e.sequence ≤ n
    not_lt q = ground arith

-- What holds between the rounds: sent and unsent events make up those behind the first cursor.
record IsExact (id start : ℕ) (db : Database) (s : Stream) : Type 0 where
  sequenced : IsSequenced db
  run : Run
  known : find_run id db ≡ some run
  split :
      after start (events_of id db.run_events)
      ≡ s.sent ++ after s.cursor (events_of id db.run_events)
  later : start ≤ s.cursor
  ahead : (s.cursor ≡ start) ⊎ (s.cursor < run.next_event_sequence)

opened-IsExact :
    (id start : ℕ) (db : Database) (run : Run)
    → IsSequenced db
    → find_run id db ≡ some run
    → IsExact id start db (opened start)
opened-IsExact id start db run s known = record {
  sequenced = s;
  run = run;
  known = known;
  split = refl;
  later = omega arith;
  ahead = inl refl;
}

poll-IsExact :
    (id start : ℕ) (db : Database) (s : Stream)
    → IsExact id start db s
    → IsExact id start db (poll id db s)
      × (after (poll id db s).cursor (events_of id db.run_events) ≡ [])
poll-IsExact id start db s x = rw round (exact, rest)
  where
    events : List Event
    events = events_of id db.run_events

    ordered : Ascending 0 events x.run.next_event_sequence
    ordered = x.sequenced.ascends id x.run x.known

    round : poll id db s ≡ record {
      cursor = last_or s.cursor (after s.cursor events);
      sent = s.sent ++ after s.cursor events;
    }
    round =
        unfold poll in
        rw (list_events-after id s.cursor db x.run.next_event_sequence ordered)
          (send-eq (after s.cursor events) s)

    rest : after (last_or s.cursor (after s.cursor events)) events ≡ []
    rest = after-last_or s.cursor 0 events x.run.next_event_sequence ordered

    exact : IsExact id start db (record {
      cursor = last_or s.cursor (after s.cursor events);
      sent = s.sent ++ after s.cursor events;
    })
    exact = record {
      sequenced = x.sequenced;
      run = x.run;
      known = x.known;
      split = rw (rest, append-nil) x.split;
      later = omega (arith, x.later, le-last_or s.cursor s.cursor events (omega arith));
      ahead =
          elim (last_or-lt s.cursor 0 (after s.cursor events) x.run.next_event_sequence
            (Ascending-after s.cursor 0 events x.run.next_event_sequence ordered)) [
              | inl same ↦ rw same x.ahead
              | inr below ↦ inr below
            ];
    }

-- an event that is numbered later is behind both cursors, or neither
after_new :
    (start cursor : ℕ) (e : Event)
    → start ≤ cursor
    → (cursor ≡ start) ⊎ (cursor < e.sequence)
    → after start (e ∷ []) ≡ after cursor (e ∷ [])
after_new start cursor e l (inl same) = rw same
after_new start cursor e l (inr below) =
    after_keep start e [] (omega arith)
    ∙ ap (λ es. e ∷ es) (after-nil start ∙ sym (after-nil cursor))
    ∙ sym (after_keep cursor e [] below)

module _ (id start : ℕ) (db : Database) (s : Stream) (run : Run) (event : Event)
    (owner : find_run event.run_id db ≡ some run) (x : IsExact id start db s) where
  own-IsExact : event.run_id ≡ id → IsExact id start (with_event run event db) s
  own-IsExact same = record {
    sequenced = with_event-IsSequenced run event db owner x.sequenced;
    run = count_event run;
    known = find-with_event id run event db owner ∙ rw ((==_iff event.run_id id).1 same);
    split =
        rw (events_of-with_event id run event db, (==_iff event.run_id id).1 same)
          (after-append start events (e ∷ [])
            ∙ rw (x.split, after_new start s.cursor e x.later ahead) (append_assoc s.sent _ _)
            ∙ ap (λ es. s.sent ++ es) (sym (after-append s.cursor events (e ∷ []))));
    later = x.later;
    ahead = elim ahead [ inl q ↦ inl q | inr q ↦ inr (unfold count_event in omega arith) ];
  }
    where
      events : List Event
      events = events_of id db.run_events

      e : Event
      e = numbered run event

      this : x.run ≡ run
      this = let k = x.known in ground arith

      ahead : (s.cursor ≡ start) ⊎ (s.cursor < run.next_event_sequence)
      ahead = rw (← this) x.ahead

  other-IsExact : (event.run_id == id) ≡ false → IsExact id start (with_event run event db) s
  other-IsExact f = record {
    sequenced = with_event-IsSequenced run event db owner x.sequenced;
    run = x.run;
    known = find-with_event id run event db owner ∙ rw f x.known;
    split = rw (events_of-with_event id run event db, f, append-nil) x.split;
    later = x.later;
    ahead = x.ahead;
  }

  with_event-IsExact : IsExact id start (with_event run event db) s
  with_event-IsExact = elim (Bool-cases (event.run_id == id)) [
    | inl t ↦ own-IsExact ((==_iff event.run_id id).0 t)
    | inr f ↦ other-IsExact f
  ]

append-IsExact :
    (id start : ℕ) (db : Database) (s : Stream) (event row : Event) (db' : Database)
    → append_event_tx event db ≡ ok (row, db')
    → IsExact id start db s
    → IsExact id start db' s
append-IsExact id start db s event row db' h x = elim (append_cases event db row db' h) [
  | inl old ↦ rw old.unchanged x
  | inr new ↦ rw new.database (with_event-IsExact id start db s new.run event new.owner x)
]

Streams-IsExact :
    (id start : ℕ) (db₀ : Database) (run : Run)
    → IsSequenced db₀
    → find_run id db₀ ≡ some run
    → {db : Database} {s : Stream} → Streams id db₀ (opened start) db s
    → IsExact id start db s
Streams-IsExact id start db₀ run w known begun = opened-IsExact id start db₀ run w known
Streams-IsExact id start db₀ run w known (appended {db} {s} before event row db' h) =
    append-IsExact id start db s event row db' h (Streams-IsExact id start db₀ run w known before)
Streams-IsExact id start db₀ run w known (polled {db} {s} before) =
    (poll-IsExact id start db s (Streams-IsExact id start db₀ run w known before)).0

-- However appends and rounds alternate, after a round the stream has sent exactly the events that
-- ListEvents gives for its first cursor: each once, in order, none missed.
pub stream_exact :
    (id start : ℕ) (db₀ : Database) (run : Run) (db : Database) (s : Stream)
    → IsSequenced db₀
    → find_run id db₀ ≡ some run
    → Streams id db₀ (opened start) db s
    → (poll id db s).sent ≡ list_events id start db
stream_exact id start db₀ run db s w known r =
    let x = Streams-IsExact id start db₀ run w known r in
    let (x', rest) = poll-IsExact id start db s x in
    sym (
      list_events-after id start db x'.run.next_event_sequence
        (x'.sequenced.ascends id x'.run x'.known)
      ∙ x'.split
      ∙ rw (rest, append-nil))
