-- ===== src/Queue/Laws.antt =====
-- The queue of internal/pkg/queue/queue.go keeps its order and its bound, and wakes its
-- consumers.
use get_magnet.Common.{
  ℕ, suc, ◌+◌, ◌≤◌, ◌<◌, ltb, ◌≡◌, refl, sym, ap, ◌∙◌, true, ◌⊎◌, inl, inr, Option, none, some,
  List, [], ◌∷◌, ◌++◌, length, length-append, Bool-cases, some-injective, arith,
}
use mathlib.Core.Path.{subst}
use get_magnet.Queue.{
  Queue, signal, has_room, enqueue, pop, World, new_world, Step, pushes, signals, pops, arrives,
  polls, waits, wakes, expires, Reach, here, extend,
}

-- No capacity is no bound.
abbrev pub Bounded : Option ℕ → ℕ → Type 0
Bounded none n = Unit {0}
Bounded (some c) n = n ≤ c

fewer-Bounded : (capacity : Option ℕ) (m n : ℕ) → m ≤ n → Bounded capacity n → Bounded capacity m
fewer-Bounded none m n h b = tt
fewer-Bounded (some c) m n h b = omega (arith, h, b)

zero-Bounded : (capacity : Option ℕ) → Bounded capacity 0
zero-Bounded none = tt
zero-Bounded (some c) = omega arith

module _ {A : Type 0} where
  append_nil : (xs : List A) → xs ≡ xs ++ []
  append_nil [] = refl
  append_nil (x ∷ xs) = ap (◌∷◌ x) (append_nil xs)

  append_assoc : (xs ys zs : List A) → (xs ++ ys) ++ zs ≡ xs ++ (ys ++ zs)
  append_assoc [] ys zs = refl
  append_assoc (x ∷ xs) ys zs = ap (◌∷◌ x) (append_assoc xs ys zs)

  -- What a push that went through did.
  record IsPushed (item : A) (q q' : Queue A) : Type 0 where
    room : has_room q ≡ true
    items : q'.items ≡ q.items ++ item ∷ []
    capacity : q'.capacity ≡ q.capacity

  enqueue-IsPushed :
      (item : A) (q : Queue A) {q' : Queue A} → enqueue item q ≡ some q' → IsPushed item q q'
  unfolding enqueue
  enqueue-IsPushed item q {q'} e = elim (Bool-cases (has_room q)) [
    | inr full ↦ absurd (apart (rw (full, enqueue) at e))
    | inl room ↦
        let same : record q { items = q.items ++ item ∷ [] } ≡ q' =
          some-injective (rw (room, enqueue) at e) in
        subst (IsPushed item q) same (record { room = room; items = refl; capacity = refl })
  ]
    where
      apart : {q' : Queue A} → none ≡ some q' → ⊥
      apart p = cc

  -- What a pop did.
  pub data IsPopped (q q' : Queue A) : Option A → Type 0 where
    taken :
        {item : A}
        → q.items ≡ item ∷ q'.items
        → q'.capacity ≡ q.capacity
        → q'.notified ≡ true
        → IsPopped q q' (some item)
    empty : q.items ≡ [] → q' ≡ q → IsPopped q q' none

  pop-IsPopped : (q : Queue A) → IsPopped q (pop q).0 (pop q).1
  unfolding pop signal
  pop-IsPopped q = go q.items refl
    where
      go :
          (items : List A)
          → q.items ≡ items
          → (let r : Queue A × Option A = elim items [
            | [] ↦ (q, none)
            | item ∷ rest ↦ (record q { items = rest; notified = true }, some item)
          ] in
              IsPopped q r.0 r.1)
      go [] e = empty e refl
      go (item ∷ rest) e = taken e refl refl

  popped : (q : Queue A) {q' : Queue A} {o : Option A} → pop q ≡ (q', o) → IsPopped q q' o
  popped q e = subst (λ (r : Queue A × Option A). IsPopped q r.0 r.1) e (pop-IsPopped q)

  -- What holds of the queue with its callers.
  record IsSound (capacity : Option ℕ) (w : World A) : Type 0 where
    order : w.pushed ≡ w.popped ++ w.queue.items
    same : w.queue.capacity ≡ capacity
    bounded : Bounded capacity (length w.queue.items)
    awake : (w.queue.items ≡ []) ⊎ ((w.queue.notified ≡ true) ⊎ (0 < w.polling + w.signalling))

  room-Bounded : (q : Queue A) → has_room q ≡ true → Bounded q.capacity (length q.items + 1)
  unfolding has_room
  room-Bounded q h = go q.capacity h
    where
      go :
          (capacity : Option ℕ)
          → (elim capacity [ none ↦ true | some c ↦ ltb (length q.items) c ]) ≡ true
          → Bounded capacity (length q.items + 1)
      go none h = tt
      go (some c) h = ground (arith, h)

  push-IsSound :
      (capacity : Option ℕ) (item : A) (w : World A) (q : Queue A)
      → IsPushed item w.queue q
      → IsSound capacity w
      → IsSound capacity
          (record w { queue = q; signalling = suc w.signalling; pushed = w.pushed ++ item ∷ [] })
  push-IsSound capacity item w q p s = record {
    order =
        ap (λ xs. xs ++ item ∷ []) s.order
        ∙ append_assoc w.popped w.queue.items (item ∷ [])
        ∙ ap (λ xs. w.popped ++ xs) (sym p.items);
    same = p.capacity ∙ s.same;
    bounded =
        rw (p.items, length-append w.queue.items (item ∷ []))
          (subst (λ c. Bounded c (length w.queue.items + 1)) s.same (room-Bounded w.queue p.room));
    awake = inr (inr (omega arith));
  }

  pop-IsSound :
      (capacity : Option ℕ) (w : World A) (q : Queue A) (item : A) (polling : ℕ)
      → IsPopped w.queue q (some item)
      → IsSound capacity w
      → IsSound capacity (record w { queue = q; polling = polling; popped = w.popped ++ item ∷ [] })
  pop-IsSound capacity w q item polling (taken items kept notified) s = record {
    order =
        s.order ∙ ap (λ xs. w.popped ++ xs) items ∙ sym (append_assoc w.popped (item ∷ []) q.items);
    same = kept ∙ s.same;
    bounded =
        fewer-Bounded capacity (length q.items) (length w.queue.items)
          (omega (arith, ap length items)) s.bounded;
    awake = inr (inl notified);
  }

  wait-IsSound :
      (capacity : Option ℕ) (w : World A) (q : Queue A) (polling waiting : ℕ)
      → IsPopped w.queue q none
      → IsSound capacity w
      → IsSound capacity (record w { queue = q; polling = polling; waiting = waiting })
  wait-IsSound capacity w q polling waiting (empty items kept) s = record {
    order = s.order ∙ ap (λ (q : Queue A). w.popped ++ q.items) (sym kept);
    same = ap (λ (q : Queue A). q.capacity) kept ∙ s.same;
    bounded = subst (λ (q : Queue A). Bounded capacity (length q.items)) (sym kept) s.bounded;
    awake = inl (ap (λ (q : Queue A). q.items) kept ∙ items);
  }

  module _ {capacity : Option ℕ} where
    Step-IsSound : {w w' : World A} → Step w w' → IsSound capacity w → IsSound capacity w'
    unfolding signal
    Step-IsSound (pushes item {w} {q} e) s =
        push-IsSound capacity item w q (enqueue-IsPushed item w.queue e) s
    Step-IsSound (signals n c) s = record {
      order = s.order;
      same = s.same;
      bounded = s.bounded;
      awake = inr (inl refl);
    }
    Step-IsSound (pops {w} {q} {item} e) s =
        pop-IsSound capacity w q item w.polling (popped w.queue e) s
    Step-IsSound arrives s = record {
      order = s.order;
      same = s.same;
      bounded = s.bounded;
      awake = inr (inr (omega arith));
    }
    Step-IsSound (polls {w} {q} {item} n c e) s =
        pop-IsSound capacity w q item n (popped w.queue e) s
    Step-IsSound (waits {w} {q} n c e) s =
        wait-IsSound capacity w q n (suc w.waiting) (popped w.queue e) s
    Step-IsSound (wakes n c t) s = record {
      order = s.order;
      same = s.same;
      bounded = s.bounded;
      awake = inr (inr (omega arith));
    }
    Step-IsSound (expires n c) s = record {
      order = s.order;
      same = s.same;
      bounded = s.bounded;
      awake = s.awake;
    }

    Reach-IsSound : {w w' : World A} → Reach w w' → IsSound capacity w → IsSound capacity w'
    Reach-IsSound here s = s
    Reach-IsSound (extend r step) s = Step-IsSound step (Reach-IsSound r s)

  new-IsSound : (capacity : Option ℕ) → IsSound capacity (new_world capacity)
  new-IsSound capacity = record {
    order = refl;
    same = refl;
    bounded = zero-Bounded capacity;
    awake = inl refl;
  }

  -- However producers and consumers interleave from a new queue on, what was pushed is what was
  -- popped, in this order, followed by what is in the queue: nothing is lost, doubled or reordered.
  pub Reach-order :
      (capacity : Option ℕ) {w : World A}
      → Reach (new_world capacity) w
      → w.pushed ≡ w.popped ++ w.queue.items
  Reach-order capacity r = (Reach-IsSound r (new-IsSound capacity)).order

  -- However they interleave, a queue with a capacity never holds more items than it.
  pub Reach-Bounded :
      (capacity : Option ℕ) {w : World A}
      → Reach (new_world capacity) w
      → Bounded capacity (length w.queue.items)
  Reach-Bounded capacity r = (Reach-IsSound r (new-IsSound capacity)).bounded

  -- However they interleave, no wake-up is lost: while there is an item, the channel holds its
  -- token, or a producer is about to send it, or a consumer is about to look.
  pub Reach-awake :
      (capacity : Option ℕ) {w : World A}
      → Reach (new_world capacity) w
      → (w.queue.items ≡ []) ⊎ ((w.queue.notified ≡ true) ⊎ (0 < w.polling + w.signalling))
  Reach-awake capacity r = (Reach-IsSound r (new-IsSound capacity)).awake
