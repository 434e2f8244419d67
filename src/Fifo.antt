-- ===== src/Fifo.antt =====
-- What src/lc_channel.c relies on of the queues of src/queue.c, as an interface. A push has memory for
-- its node and its copy: without memory `new_node` of src/queue.c writes through NULL, and the copies
-- of src/lc_channel.c queue NULL.
use casting.Base.{◌≡◌, Option, none, some, List, [], ◌∷◌, ◌++◌, length, ℤ, pos}

module _ {ℓ} {A : Type ℓ} where
  abbrev pub head? : List A → Option A
  head? [] = none
  head? (x ∷ xs) = some x

  abbrev pub tail : List A → List A
  tail [] = []
  tail (x ∷ xs) = xs

-- Queues of `A` with the data that a clearing releases, and the laws over `contents`.
pub record Fifo {ℓ} (A : Type ℓ) : Type (ℓ + 1) where
  pub Q : Type ℓ
  pub new : Q
  pub push : Q → A → Q
  pub pop : Q → Q × Option A
  pub size : Q → ℤ
  pub clear : Q → Q × List A
  pub contents : Q → List A
  pub contents-new : contents new ≡ []
  pub contents-push : (q : Q) (x : A) → contents (push q x) ≡ contents q ++ (x ∷ [])
  pub contents-pop : (q : Q) → contents (pop q).0 ≡ tail (contents q)
  pub pop-head : (q : Q) → (pop q).1 ≡ head? (contents q)
  pub size-length : (q : Q) → size q ≡ pos (length (contents q))
  pub contents-clear : (q : Q) → contents (clear q).0 ≡ []
  pub clear_released : (q : Q) → (clear q).1 ≡ contents q
