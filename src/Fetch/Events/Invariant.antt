-- ===== src/Fetch/Events/Invariant.antt =====
-- What holds of one source between two events.
use uxon.Prelude.{
  ℕ, ◌+◌, ◌≤◌, ◌<◌, ◌≡◌, Bool, true, false, not, Option, none, some, List, ◌++◌, ◌&&◌, ◌==◌, All,
  arith, Bool-cases, inl, inr, subst, All-map, All-append,
}
use uxon.Breaker.Float.{Floats}
use uxon.Breaker.{HostBreaker}
use uxon.Fetch.{cancel_pending, Entry, Landed, Move, thread_step, release, current_id_is}
use uxon.Fetch.Events.Threads.{entry, guarded, inert, past, thread_step-Steps}

-- The current attempt, if there is one, has the property.
abbrev pub Current : (Entry → Bool) → Option Entry → Type 0
Current p none = Unit
Current p (some e) = p e ≡ true

-- The current attempt's id has been drawn.
abbrev pub Drawn : ℕ → Option Entry → Type 0
Drawn next none = Unit
Drawn next (some e) = (0 < e.attempt.attempt_id) × (e.attempt.attempt_id ≤ next)

-- A message on its way: its id has been drawn, and if it is the current attempt's, the thread has
-- left the fetch.
pub record OnItsWay (current : Option Entry) (next : ℕ) (m : Landed) : Type 0 where
  pub positive : 0 < m.attempt_id
  pub drawn : m.attempt_id ≤ next
  pub of_current : current_id_is m.attempt_id current ≡ true → Current past current

-- `gate` is the breaker's `in_flight`.
pub record Inv (gate : Bool) (current : Option Entry) (older : List Entry) (next : ℕ)
    (queue : List Landed) : Type 0 where
  pub older_inert : All (λ e. inert e ≡ true) older
  pub free : gate ≡ false → Current inert current
  pub current_guarded : Current guarded current
  pub current_drawn : Drawn next current
  pub messages : All (OnItsWay current next) queue

pub Drawn-more : (next n : ℕ) (c : Option Entry) → Drawn next c → Drawn (next + n) c
Drawn-more next n none h = tt
Drawn-more next n (some e) h = (h.0, omega arith)

module _ {gate : Bool} {older : List Entry} {next : ℕ} {queue : List Landed} where
  -- more ids are drawn
  pub more-Inv :
      (n : ℕ) (current : Option Entry)
      → Inv gate current older next queue
      → Inv gate current older (next + n) queue
  more-Inv n current h = record {
    older_inert = h.older_inert;
    free = h.free;
    current_guarded = h.current_guarded;
    current_drawn = Drawn-more next n current h.current_drawn;
    messages =
        All-map (OnItsWay current next) (OnItsWay current (next + n))
          (λ m k. record {
            positive = k.positive;
            drawn = omega (arith, k.drawn);
            of_current = k.of_current;
          })
          queue h.messages;
  }

  -- a move of the current attempt's thread
  pub moved-Inv :
      (m : Move) (x : Entry)
      → Inv gate (some x) older next queue
      → let r = thread_step m x in Inv gate (some r.0) older next (queue ++ r.1)
  moved-Inv m x h =
      let st = thread_step-Steps m x in
      let x' = (thread_step m x).0 in
      record {
        older_inert = h.older_inert;
        free = λ f. st.stays_inert (h.free f);
        current_guarded = st.stays_guarded h.current_guarded;
        current_drawn = rw st.same_id h.current_drawn;
        messages =
            All-append (OnItsWay (some x') next) queue (thread_step m x).1
              (All-map (OnItsWay (some x) next) (OnItsWay (some x') next)
                (λ msg k. record {
                  positive = k.positive;
                  drawn = k.drawn;
                  of_current = λ c.
                      st.stays_past (
                        k.of_current
                          (subst (λ (i : ℕ). (i == msg.attempt_id) ≡ true) st.same_id c));
                })
                queue h.messages)
              (All-map (λ msg. (msg.attempt_id ≡ x.attempt.attempt_id) × (past x' ≡ true))
                (OnItsWay (some x') next)
                (λ msg k. record {
                  positive = rw k.0 h.current_drawn.0;
                  drawn = rw k.0 h.current_drawn.1;
                  of_current = λ c. k.1;
                })
                (thread_step m x).1 st.sent_ok);
      }

-- an attempt that is given up enters no fetch any more
pub given_up-inert :
    (e : Entry)
    → guarded e ≡ true
    → (e.attempt.started && not e.attempt.finished_without_landing) ≡ false
    → inert (entry (let a = e.attempt in record a { invalidated = true }) e.thread) ≡ true
given_up-inert e g n = ground arith

pub past-inert : (e : Entry) → past e ≡ true → inert e ≡ true
past-inert e p = ground arith

module _ (fl : Floats) {older : List Entry} {next : ℕ} {queue : List Landed} where
  pub release-Inv :
      (broken : Bool) (current : Option Entry) (b : HostBreaker fl)
      → Inv b.in_flight current older next queue
      → let r = release fl broken current b in Inv r.1.in_flight r.0 older next queue
  unfolding release
  release-Inv false current b h = h
  release-Inv true none b h = h
  release-Inv true (some e) b h =
      elim (Bool-cases (e.attempt.started && not e.attempt.finished_without_landing)) [
        | inl live ↦ rw (live, cancel_pending) h
        | inr idle ↦
            rw (idle, cancel_pending)
              (record {
                older_inert = h.older_inert;
                free = λ f. given_up-inert e h.current_guarded idle;
                current_guarded = ground (arith, h.current_guarded);
                current_drawn = h.current_drawn;
                messages =
                    All-map (OnItsWay (some e) next) _
                      (λ m k. record {
                        positive = k.positive;
                        drawn = k.drawn;
                        of_current = k.of_current;
                      })
                      queue h.messages;
              })
      ]
