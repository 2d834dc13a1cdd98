-- ===== src/Spsc/Client.antt =====
-- A queue that holds a list, for the components that use one.
use itch_feed_handler.Common.{
  ℕ, ◌<◌, ◌≡◌, arith, subst, ap, ◌∙◌, true, false, List, [], ◌∷◌, ◌++◌, length,
}
use itch_feed_handler.Spsc.{SpscQueue, try_push, try_pop, size_approx}
use itch_feed_handler.Spsc.Fifo.{size_approx-length}
use itch_feed_handler.Spsc.Queue.{Holds, push_list, pop_list, try_push_refines, try_pop_refines}

module _ {ℓ} {T : Type ℓ} (capacity : ℕ) (q : SpscQueue T) where
  pub size_approx-Holds : (xs : List T) → Holds capacity q xs → size_approx q ≡ length xs
  size_approx-Holds xs (c, v, e) = size_approx-length capacity c q v ∙ ap length e

  pub try_push-Holds :
      (xs : List T) (x : T)
      → Holds capacity q xs
      → Holds capacity (try_push capacity q x).0 (push_list capacity xs x).0
        × ((try_push capacity q x).1 ≡ (push_list capacity xs x).1)
  try_push-Holds xs x (c, v, e) =
      subst
        (λ t.
          Holds capacity (try_push capacity q x).0 (push_list capacity t x).0
          × ((try_push capacity q x).1 ≡ (push_list capacity t x).1))
        e (try_push_refines capacity c q x v)

  pub try_push-room :
      (xs : List T) (x : T)
      → Holds capacity q xs
      → length xs < capacity
      → Holds capacity (try_push capacity q x).0 (xs ++ x ∷ []) × ((try_push capacity q x).1 ≡ true)
  try_push-room xs x h room =
      subst (λ t. Holds capacity (try_push capacity q x).0 t.0 × ((try_push capacity q x).1 ≡ t.1))
        (let spec : push_list capacity xs x ≡ (xs ++ x ∷ [], true) = ground arith in spec)
        (try_push-Holds xs x h)

  pub try_push-full :
      (xs : List T) (x : T)
      → Holds capacity q xs
      → ¬ (length xs < capacity)
      → Holds capacity (try_push capacity q x).0 xs × ((try_push capacity q x).1 ≡ false)
  try_push-full xs x h full =
      subst (λ t. Holds capacity (try_push capacity q x).0 t.0 × ((try_push capacity q x).1 ≡ t.1))
        (let spec : push_list capacity xs x ≡ (xs, false) = ground arith in spec)
        (try_push-Holds xs x h)

  pub try_pop-Holds :
      (xs : List T)
      → Holds capacity q xs
      → Holds capacity (try_pop capacity q).0 (pop_list capacity xs).0
        × ((try_pop capacity q).1 ≡ (pop_list capacity xs).1)
  try_pop-Holds xs (c, v, e) =
      subst
        (λ t.
          Holds capacity (try_pop capacity q).0 (pop_list capacity t).0
          × ((try_pop capacity q).1 ≡ (pop_list capacity t).1))
        e (try_pop_refines capacity c q v)
