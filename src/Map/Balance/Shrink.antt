-- ===== src/Map/Balance/Shrink.antt =====
-- src/map.c: the rebalancing of `map_remove`, at each shape that a removal below a node leaves.
use casting.Base.{ℕ, zero, suc, ◌-◌, ◌≤◌, ◌<◌, ◌≡◌, inl, inr, refl, arith, dec_lt, lt→ltb, le→ltb}
use casting.Map.Node.{Tree, nil, node, level, right, set_level, realign, rebalance}
use casting.Map.Balance.{IsBalanced}
use casting.Map.Balance.Realign.{Settled, low_right, low_left_black, low_left_red}

module _ {ℓ} {A : Type ℓ} where
  -- What a removal makes of a subtree.
  abbrev pub Shrunk : Tree A → Tree A → Type 0
  Shrunk t u = Settled (level t) (level (right t)) u

  rebalance_none :
      (n : ℕ) (d : A) (l r : Tree A)
      → n ≤ level l
      → n ≤ level r
      → rebalance (node (suc n) d l r) ≡ node (suc n) d l r
  unfolding rebalance
  rebalance_none n d l r h k = ground arith

  rebalance_low_left :
      (n : ℕ) (d : A) (l r : Tree A)
      → level l < n
      → level r ≤ n
      → rebalance (node (suc n) d l r) ≡ realign (node n d l r)
  unfolding rebalance
  rebalance_low_left n d l r h k =
      let e : suc n - 1 ≡ n = omega arith in rw (e, lt→ltb (level l) n h, le→ltb n (level r) k)

  rebalance_low_right :
      (n : ℕ) (d : A) (l r : Tree A)
      → level r < n
      → rebalance (node (suc n) d l r) ≡ realign (node n d l r)
  unfolding rebalance
  rebalance_low_right n d l r h = ground arith

  rebalance_red :
      (n k : ℕ) (d e : A) (l a b : Tree A)
      → level l < n
      → n < k
      → rebalance (node (suc n) d l (node k e a b)) ≡ realign (node n d l (node n e a b))
  unfolding rebalance set_level
  rebalance_red n k d e l a b h h' = ground arith

  lost_left :
      (n : ℕ) (d d' : A) (l r l' : Tree A)
      → IsBalanced (node (suc n) d l r)
      → IsBalanced l'
      → suc (level l') ≡ level l
      → Settled (suc n) (level r) (rebalance (node (suc n) d' l' r))
  lost_left n d d' l nil l' h u e =
      rw (rebalance_low_left n d' l' nil (omega arith) (omega arith))
        (low_left_black n 0 d' l' nil u tt (omega arith) (omega arith))
  lost_left n d d' l (node k f nil b) l' h u e =
      rw (rebalance_low_left n d' l' (node k f nil b) (omega arith) (omega arith))
        (low_left_black n k d' l' (node k f nil b) u h.5 (omega arith) (omega arith))
  lost_left n d d' l (node k f (node m g x y) b) l' h u e = elim (dec_lt n k) [
    | yes red ↦
        let q : k ≡ suc n = omega arith in
        rw (rebalance_red n k d' f l' (node m g x y) b (omega arith) red, q)
          (low_left_red n m d' f g l' x y b u h.5.4 h.5.5 (omega arith) (omega arith) (omega arith))
    | no black ↦
        rw (rebalance_low_left n d' l' (node k f (node m g x y) b) (omega arith) (omega arith))
          (low_left_black n k d' l' (node k f (node m g x y) b) u h.5 (omega arith) (omega arith))
  ]

  level-right : (t : Tree A) → IsBalanced t → level (right t) ≤ level t
  level-right nil h = omega arith
  level-right (node lv d l r) h = h.1

  -- A node that needs no rebalancing.
  steady :
      (lv was : ℕ) (d : A) (l r : Tree A)
      → IsBalanced (node lv d l r)
      → (level r ≡ lv → was ≡ lv)
      → Settled lv was (node lv d l r)
  steady lv was d l r h f = elim (dec_lt (level r) lv) [
    | yes black ↦ (h, inr (inl (refl, black)))
    | no red ↦ (h, inr (inr (refl, f (omega arith))))
  ]

  pub Shrunk-left :
      (lv : ℕ) (d d' : A) (l r l' : Tree A)
      → IsBalanced (node lv d l r)
      → Shrunk l l'
      → Shrunk (node lv d l r) (rebalance (node lv d' l' r))
  Shrunk-left zero d d' l r l' h s = absurd (omega arith)
  Shrunk-left (suc n) d d' l r l' h (u, inl e) = lost_left n d d' l r l' h u e
  Shrunk-left (suc n) d d' l r l' h (u, inr e) =
      rw (rebalance_none n d' l' r (omega arith) (omega arith))
        (steady (suc n) (level r) d' l' r (omega arith, h.1, h.2, h.3, u, h.5) (λ q. q))

  pub Shrunk-right :
      (lv : ℕ) (d d' : A) (l r r' : Tree A)
      → IsBalanced (node lv d l r)
      → Shrunk r r'
      → Shrunk (node lv d l r) (rebalance (node lv d' l r'))
  Shrunk-right zero d d' l r r' h s = absurd (omega arith)
  Shrunk-right (suc n) d d' l r r' h (u, e) = elim (dec_lt (level r') n) [
    | yes low ↦
        rw (rebalance_low_right n d' l r' low)
          (low_right n (level r) d' l r' h.4 u (omega arith) (omega arith))
    | no high ↦ rw (rebalance_none n d' l r' (omega arith) (omega arith)) (
        steady (suc n) (level r) d' l r'
          (h.0, omega arith, omega arith, omega (arith, level-right r' u), h.4, u)
          (λ q. omega arith))
  ]
