-- ===== src/Queue/Examples.antt =====
-- A producer and a consumer of a queue for one number.
use get_magnet.Common.{
  ℕ, ◌+◌, ◌<◌, ◌≡◌, refl, ◌⊎◌, true, Option, some, none, [], ◌∷◌, ◌++◌, length, false,
}
use get_magnet.Queue.{
  Queue, new_queue, enqueue, pop, signal, World, new_world, pushes, signals, arrives, waits, wakes,
  Reach, here, extend,
}
use get_magnet.Queue.Laws.{Bounded, Reach-order, Reach-Bounded, Reach-awake}

-- The consumer finds nothing and waits; the producer pushes; the consumer takes the token.
abbrev woken : World ℕ
woken = record {
  queue = record { items = 7 ∷ []; capacity = some 1; notified = false };
  signalling = 0;
  polling = 1;
  waiting = 0;
  pushed = 7 ∷ [];
  popped = [];
}

filled :
    enqueue {A = ℕ} 7 (new_queue (some 1))
    ≡ some (record { items = 7 ∷ []; capacity = some 1; notified = false })
unfolding enqueue
filled = refl

nothing : ◌≡◌ {A = Queue ℕ × Option ℕ} (pop (new_queue (some 1))) (new_queue (some 1), none)
unfolding pop
nothing = refl

woken-Reach : Reach (new_world (some 1)) woken
unfolding signal
woken-Reach =
    extend
      (extend (extend (extend (extend here arrives) (waits 0 refl nothing)) (pushes 7 filled))
        (signals 0 refl))
      (wakes 0 refl refl)

Reach-order_example : woken.pushed ≡ woken.popped ++ woken.queue.items
Reach-order_example = Reach-order (some 1) woken-Reach

Reach-Bounded_example : Bounded (some 1) (length woken.queue.items)
Reach-Bounded_example = Reach-Bounded (some 1) woken-Reach

Reach-awake_example :
    (woken.queue.items ≡ [])
    ⊎ ((woken.queue.notified ≡ true) ⊎ (0 < woken.polling + woken.signalling))
Reach-awake_example = Reach-awake (some 1) woken-Reach
