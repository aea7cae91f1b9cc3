-- ===== src/Lsp/Server/Ready.antt =====
-- crates/codequery-lsp/src/server.rs: when the wait for a server ends, and what it knows then.
use codequery.Prelude.{
  List, [], ◌∷◌, ◌++◌, append-nil, append_assoc, Option, none, some, Text, Bool, true, false, not,
  ◌&&◌, if◌then◌else◌, is_empty, ◌≡◌, ◌≢◌, refl, sym, ap, ◌∙◌, arith, Bool-cases, ◌⊎◌, inl, inr,
}
use codequery.Lsp.Value.{Value}
use codequery.Lsp.Server.{
  Event, begin, end, report, other, create, Read, message, nothing, failed, Poll, Stop, timed_out,
  no_progress, ready, read_failed, Mode, main, drain, Waiting, without, with_token, main_event,
  drain_event, drained, main_nothing, main_read, drain_read, round, wait_rounds, wait_for_ready,
}

-- The tokens that have begun and not ended, read off the messages alone.
abbrev pub progress : List Text → List Event → List Text
progress open_now [] = open_now
progress open_now (begin t ∷ es) = progress (with_token t open_now) es
progress open_now (end t ∷ es) = progress (without t open_now) es
progress open_now (report ∷ es) = progress open_now es
progress open_now (other ∷ es) = progress open_now es
progress open_now (create id ∷ es) = progress open_now es

-- The identifiers of the requests to create a token.
abbrev pub requests : List Event → List Value
requests [] = []
requests (create (some id) ∷ es) = id ∷ requests es
requests (create none ∷ es) = requests es
requests (begin t ∷ es) = requests es
requests (end t ∷ es) = requests es
requests (report ∷ es) = requests es
requests (other ∷ es) = requests es

abbrev events_of : Read → List Event
events_of (message e) = e ∷ []
events_of nothing = []
events_of failed = []

-- The messages that the rounds read.
abbrev heard_in : Mode → Poll → List Event
heard_in main p = if p.late then [] else events_of p.read
heard_in (drain new) p = if p.drain_over then [] else if p.late then [] else events_of p.read

abbrev pub heard : List Poll → Waiting → List Event
heard [] w = []
heard (p ∷ polls) w =
    let (stop, w') = round w.mode w p in
    heard_in w.mode p ++ (elim stop [ some reason ↦ [] | none ↦ heard polls w' ])

-- Nothing is in progress while the wait drains.
abbrev DrainsEmpty : Mode → List Text → Type 0
DrainsEmpty main active = Unit
DrainsEmpty (drain new) active = (active ≡ [])

record Kept (w : Waiting) (es : List Event) (r : Option Stop × Waiting) : Type 0 where
  pub active : r.1.active ≡ progress w.active es
  pub answered : r.1.answered ≡ w.answered ++ requests es
  pub drains : DrainsEmpty r.1.mode r.1.active
  pub empty : r.0 ≡ some ready → r.1.active ≡ []

-- The loop goes on in its main part.
Kept-in_main :
    (w w' : Waiting) (es : List Event)
    → w'.mode ≡ main
    → w'.active ≡ progress w.active es
    → w'.answered ≡ w.answered ++ requests es
    → Kept w es (none, w')
Kept-in_main w w' es h active answered = record {
  active = active;
  answered = answered;
  drains = rw h tt;
  empty = λ e. cc;
}

-- Nothing was read.
Kept-quiet :
    (w : Waiting) (s : Option Stop)
    → DrainsEmpty w.mode w.active
    → (s ≡ some ready → w.active ≡ [])
    → Kept w [] (s, w)
Kept-quiet w s drains empty = record {
  active = refl;
  answered = sym (append-nil w.answered);
  drains = drains;
  empty = empty;
}

main_event-Kept : (w : Waiting) (e : Event) → w.mode ≡ main → Kept w (e ∷ []) (none, main_event w e)
unfolding main_event
main_event-Kept w (create none) h = Kept-in_main w _ _ h refl (sym (append-nil w.answered))
main_event-Kept w (create (some id)) h = Kept-in_main w _ _ h refl refl
main_event-Kept w (begin t) h = Kept-in_main w _ _ h refl (sym (append-nil w.answered))
main_event-Kept w (end t) h = Kept-in_main w _ _ h refl (sym (append-nil w.answered))
main_event-Kept w report h = Kept-in_main w _ _ h refl (sym (append-nil w.answered))
main_event-Kept w other h = Kept-in_main w _ _ h refl (sym (append-nil w.answered))

-- An event that the drain loop passes over.
passed_over :
    (w : Waiting) (e : Event)
    → DrainsEmpty w.mode w.active
    → w.active ≡ progress w.active (e ∷ [])
    → requests (e ∷ []) ≡ []
    → Kept w (e ∷ []) (none, w)
passed_over w e drains active ids = record {
  active = active;
  answered = rw ids (sym (append-nil w.answered));
  drains = drains;
  empty = λ e. cc;
}

drain_event-Kept :
    (w : Waiting) (new : Bool) (e : Event)
    → w.mode ≡ drain new
    → w.active ≡ []
    → Kept w (e ∷ []) (none, drain_event w new e)
unfolding drain_event
drain_event-Kept w new (begin t) h n = Kept-in_main w _ _ refl refl (sym (append-nil w.answered))
drain_event-Kept w new (end t) h n = passed_over w (end t) (rw h n) (rw n refl) refl
drain_event-Kept w new report h n = passed_over w report (rw h n) refl refl
drain_event-Kept w new other h n = passed_over w other (rw h n) refl refl
drain_event-Kept w new (create none) h n = record {
  active = refl;
  answered = sym (append-nil w.answered);
  drains = n;
  empty = λ e. cc;
}
drain_event-Kept w new (create (some id)) h n = record {
  active = refl;
  answered = refl;
  drains = n;
  empty = λ e. cc;
}

drained-Kept :
    (w : Waiting) (new : Bool) → w.mode ≡ drain new → w.active ≡ [] → Kept w [] (drained w new)
drained-Kept w false h n = Kept-quiet w (some ready) (rw h n) (λ e. n)
drained-Kept w true h n = Kept-in_main w _ [] refl refl (sym (append-nil w.answered))

main_nothing-Kept : (w : Waiting) (grace : Bool) → w.mode ≡ main → Kept w [] (main_nothing w grace)
main_nothing-Kept w grace h = elim (Bool-cases (not w.seen && grace)) [
  | inl e ↦ rw e (Kept-quiet w (some no_progress) (rw h tt) (λ e. cc))
  | inr e ↦ rw e (at_rest (Bool-cases (w.seen && is_empty w.active)))
]
  where
    nothing_active : (xs : List Text) (seen : Bool) → (seen && is_empty xs) ≡ true → xs ≡ []
    nothing_active [] seen h = refl
    nothing_active (x ∷ xs) seen h = ground arith

    at_rest :
        (w.seen && is_empty w.active ≡ true) ⊎ (w.seen && is_empty w.active ≡ false)
        → Kept w [] (
            if◌then◌else◌ {A = Option Stop × Waiting}
              (w.seen && is_empty w.active)
              (none, record w { mode = drain false })
              (none, w))
    at_rest (inl e) = rw e (record {
      active = refl;
      answered = sym (append-nil w.answered);
      drains = nothing_active w.active w.seen e;
      empty = λ e. cc;
    })
    at_rest (inr e) = rw e (Kept-quiet w none (rw h tt) (λ e. cc))

main_read-Kept :
    (w : Waiting) (grace : Bool) (r : Read)
    → w.mode ≡ main
    → Kept w (events_of r) (main_read w grace r)
main_read-Kept w grace (message e) h = main_event-Kept w e h
main_read-Kept w grace nothing h = main_nothing-Kept w grace h
main_read-Kept w grace failed h = Kept-quiet w (some read_failed) (rw h tt) (λ e. cc)

drain_read-Kept :
    (w : Waiting) (new : Bool) (r : Read)
    → w.mode ≡ drain new
    → w.active ≡ []
    → Kept w (events_of r) (drain_read w new r)
drain_read-Kept w new (message e) h n = drain_event-Kept w new e h n
drain_read-Kept w new nothing h n = Kept-quiet w none (rw h n) (λ e. cc)
drain_read-Kept w new failed h n = drained-Kept w new h n

round-Kept :
    (w : Waiting) (p : Poll) (m : Mode)
    → w.mode ≡ m
    → DrainsEmpty m w.active
    → Kept w (heard_in m p) (round m w p)
round-Kept w p main h n = elim (Bool-cases p.late) [
  | inl e ↦ rw e (Kept-quiet w (some timed_out) (rw h tt) (λ e. cc))
  | inr e ↦ rw e (main_read-Kept w p.grace_over p.read h)
]
round-Kept w p (drain new) h n = elim (Bool-cases p.drain_over) [
  | inl e ↦ rw e (drained-Kept w new h n)
  | inr e ↦ elim (Bool-cases p.late) [
    | inl late ↦ rw (e, late) (drained-Kept w new h n)
    | inr early ↦ rw (e, early) (drain_read-Kept w new p.read h n)
  ]
]

progress-append :
    (a : List Text) (xs ys : List Event) → progress a (xs ++ ys) ≡ progress (progress a xs) ys
progress-append a [] ys = refl
progress-append a (begin t ∷ xs) ys = progress-append (with_token t a) xs ys
progress-append a (end t ∷ xs) ys = progress-append (without t a) xs ys
progress-append a (report ∷ xs) ys = progress-append a xs ys
progress-append a (other ∷ xs) ys = progress-append a xs ys
progress-append a (create id ∷ xs) ys = progress-append a xs ys

requests-append : (xs ys : List Event) → requests (xs ++ ys) ≡ requests xs ++ requests ys
requests-append [] ys = refl
requests-append (create (some id) ∷ xs) ys = ap (λ t. id ∷ t) (requests-append xs ys)
requests-append (create none ∷ xs) ys = requests-append xs ys
requests-append (begin t ∷ xs) ys = requests-append xs ys
requests-append (end t ∷ xs) ys = requests-append xs ys
requests-append (report ∷ xs) ys = requests-append xs ys
requests-append (other ∷ xs) ys = requests-append xs ys

-- A round, and the rounds behind it where it does not end the wait.
then_rounds :
    (w : Waiting) (es : List Event) (r : Option Stop × Waiting) (polls : List Poll)
    → Kept w es r
    → (DrainsEmpty r.1.mode r.1.active → Kept r.1 (heard polls r.1) (wait_rounds polls r.1))
    → Kept w
        (es ++ (elim r.0 [ some reason ↦ [] | none ↦ heard polls r.1 ]))
        (elim r.0 [ some reason ↦ (some reason, r.1) | none ↦ wait_rounds polls r.1 ])
then_rounds w es (some reason, w') polls k rest = rw (append-nil es) k
then_rounds w es (none, w') polls k rest =
    let further = rest k.drains in
    record {
      active =
          further.active
          ∙ ap (λ a. progress a (heard polls w')) k.active
          ∙ sym (progress-append w.active es (heard polls w'));
      answered =
          further.answered
          ∙ ap (λ a. a ++ requests (heard polls w')) k.answered
          ∙ append_assoc w.answered (requests es) (requests (heard polls w'))
          ∙ ap (λ ids. w.answered ++ ids) (sym (requests-append es (heard polls w')));
      drains = further.drains;
      empty = further.empty;
    }

wait_rounds-Kept :
    (polls : List Poll) (w : Waiting)
    → DrainsEmpty w.mode w.active
    → Kept w (heard polls w) (wait_rounds polls w)
unfolding wait_rounds
wait_rounds-Kept [] w h = Kept-quiet w none h (λ e. cc)
wait_rounds-Kept (p ∷ polls) w h =
    then_rounds w (heard_in w.mode p) (round w.mode w p) polls (round-Kept w p w.mode refl h)
      (wait_rounds-Kept polls (round w.mode w p).1)

abbrev pub waiting_start : Waiting
waiting_start = record { active = []; seen = false; answered = []; mode = main }

-- Whatever the server sends and however the clock runs: the tokens that the wait holds are those that
-- the messages it read began and did not end; the requests that it answered are the requests to
-- create a token among these messages, in their order; and when it ends because the server is ready,
-- no token is in progress.
pub wait_for_ready-tokens :
    (polls : List Poll)
    → ((wait_for_ready polls).1.active ≡ progress [] (heard polls waiting_start))
      × ((wait_for_ready polls).1.answered ≡ requests (heard polls waiting_start))
      × ((wait_for_ready polls).0 ≡ some ready → (wait_for_ready polls).1.active ≡ [])
unfolding wait_for_ready
wait_for_ready-tokens polls =
    let k = wait_rounds-Kept polls waiting_start tt in (k.active, k.answered, k.empty)

abbrev next_rounds : List Poll → Option Stop × Waiting → Option Stop × Waiting
next_rounds polls r = elim r.0 [ some reason ↦ (some reason, r.1) | none ↦ wait_rounds polls r.1 ]

-- Behind the drain loop the main loop looks at the deadline.
drained_then :
    (w : Waiting) (new : Bool) (q : Poll) (polls : List Poll)
    → q.late ≡ true
    → (next_rounds (q ∷ polls) (drained w new)).0 ≢ none
unfolding wait_rounds
drained_then w false q polls hq = λ e. cc
drained_then w true q polls hq = rw (wait_rounds, hq) (λ e. cc)

two_late_rounds :
    (w : Waiting) (m : Mode) (p q : Poll) (polls : List Poll)
    → p.late ≡ true
    → q.late ≡ true
    → (next_rounds (q ∷ polls) (round m w p)).0 ≢ none
two_late_rounds w main p q polls hp hq = rw hp (λ e. cc)
two_late_rounds w (drain new) p q polls hp hq = elim (Bool-cases p.drain_over) [
  | inl e ↦ rw e (drained_then w new q polls hq)
  | inr e ↦ rw (e, hp) (drained_then w new q polls hq)
]

rounds_end :
    (before : List Poll) (w : Waiting) (p q : Poll) (after : List Poll)
    → p.late ≡ true
    → q.late ≡ true
    → (wait_rounds (before ++ p ∷ q ∷ after) w).0 ≢ none
unfolding wait_rounds
rounds_end [] w p q after hp hq = two_late_rounds w w.mode p q after hp hq
rounds_end (x ∷ before) w p q after hp hq =
    go (round w.mode w x) (rounds_end before (round w.mode w x).1 p q after hp hq)
  where
    go :
        (r : Option Stop × Waiting)
        → (wait_rounds (before ++ p ∷ q ∷ after) r.1).0 ≢ none
        → (next_rounds (before ++ p ∷ q ∷ after) r).0 ≢ none
    go (some reason, w') h = λ e. cc
    go (none, w') h = h

-- The wait ends: two rounds behind the deadline are enough, whatever the server sends before.
pub wait_for_ready-ends :
    (before : List Poll) (p q : Poll) (after : List Poll)
    → p.late ≡ true
    → q.late ≡ true
    → (wait_for_ready (before ++ p ∷ q ∷ after)).0 ≢ none
unfolding wait_for_ready
wait_for_ready-ends before p q after hp hq = rounds_end before waiting_start p q after hp hq
