-- ===== src/Queue.antt =====
-- internal/pkg/queue/queue.go: a bounded queue with a channel that wakes waiting consumers. The
-- mutex makes each `Pop`, and each turn of the loop of `Push` up to its `signal`, one step.
pub mod Laws
pub mod Examples
use get_magnet.Common.{
  ℕ, suc, ◌+◌, ltb, ◌≡◌, Bool, true, false, Option, none, some, List, [], ◌∷◌, ◌++◌, length,
  if◌then◌else◌,
}

-- `capacity` is `none` for a negative number; `notified` says that the channel holds its token.
pub record Queue (A : Type 0) : Type 0 where
  pub items : List A
  pub capacity : Option ℕ
  pub notified : Bool

module _ {A : Type 0} where
  abbrev pub new_queue : Option ℕ → Queue A
  new_queue capacity = record { items = []; capacity = capacity; notified = false }

  -- A send that is dropped if the channel is full.
  unfoldable pub signal : Queue A → Queue A
  signal q = record q { notified = true }

  unfoldable pub has_room : Queue A → Bool
  has_room q = elim q.capacity [ none ↦ true | some c ↦ ltb (length q.items) c ]

  -- One turn of the loop of `Push`, under the mutex; `none` if it has to wait for its next turn.
  unfoldable pub enqueue : A → Queue A → Option (Queue A)
  unfolding has_room
  enqueue item q = if has_room q then some (record q { items = q.items ++ item ∷ [] }) else none

  unfoldable pub pop : Queue A → Queue A × Option A
  unfolding signal
  pop q = elim q.items [
    | [] ↦ (q, none)
    | item ∷ rest ↦ (signal (record q { items = rest }), some item)
  ]

-- The queue with its callers: how many calls of `Push` have still to signal, how many calls of
-- `PopWaitTimeout` are about to `Pop`, and how many wait for the token or their timer; and what
-- went in and out so far.
pub record World (A : Type 0) : Type 0 where
  pub queue : Queue A
  pub signalling : ℕ
  pub polling : ℕ
  pub waiting : ℕ
  pub pushed : List A
  pub popped : List A

module _ {A : Type 0} where
  abbrev pub new_world : Option ℕ → World A
  new_world capacity = record {
    queue = new_queue capacity;
    signalling = 0;
    polling = 0;
    waiting = 0;
    pushed = [];
    popped = [];
  }

  -- The steps of producers and consumers, in any order.
  pub data Step : World A → World A → Type 0 where
    pushes :
        (item : A) {w : World A} {q : Queue A}
        → enqueue item w.queue ≡ some q
        → Step w
            (record w { queue = q; signalling = suc w.signalling; pushed = w.pushed ++ item ∷ [] })
    signals :
        {w : World A} (n : ℕ)
        → w.signalling ≡ suc n
        → Step w (record w { queue = signal w.queue; signalling = n })
    -- `Pop` by itself.
    pops :
        {w : World A} {q : Queue A} {item : A}
        → pop w.queue ≡ (q, some item)
        → Step w (record w { queue = q; popped = w.popped ++ item ∷ [] })
    -- `PopWaitTimeout`: the call, its `Pop` with an item or without, the token, the timer.
    arrives : {w : World A} → Step w (record w { polling = suc w.polling })
    polls :
        {w : World A} {q : Queue A} {item : A} (n : ℕ)
        → w.polling ≡ suc n
        → pop w.queue ≡ (q, some item)
        → Step w (record w { queue = q; polling = n; popped = w.popped ++ item ∷ [] })
    waits :
        {w : World A} {q : Queue A} (n : ℕ)
        → w.polling ≡ suc n
        → pop w.queue ≡ (q, none)
        → Step w (record w { queue = q; polling = n; waiting = suc w.waiting })
    wakes :
        {w : World A} (n : ℕ)
        → w.waiting ≡ suc n
        → w.queue.notified ≡ true
        → Step w (record w {
          queue = record (w.queue) { notified = false };
          polling = suc w.polling;
          waiting = n;
        })
    expires : {w : World A} (n : ℕ) → w.waiting ≡ suc n → Step w (record w { waiting = n })

  pub data Reach (w : World A) : World A → Type 0 where
    here : Reach w w
    extend : {w' w'' : World A} → Reach w w' → Step w' w'' → Reach w w''
