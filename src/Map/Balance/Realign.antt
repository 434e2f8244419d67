-- ===== src/Map/Balance/Realign.antt =====
-- src/map.c: the skews and splits of `map_remove`, at each shape of a node that has been lowered.
use casting.Base.{ℕ, suc, ◌<◌, ◌≡◌, ◌⊎◌, refl, arith, dec_lt}
use casting.Map.Node.{Tree, nil, node, level, right, skew, split, on_right, realign}
use casting.Map.Balance.{IsBalanced, skew_black, skew_red, split_black, split_red}

module _ {ℓ} {A : Type ℓ} where
  pub skew_balanced : (t : Tree A) → IsBalanced t → skew t ≡ t
  unfolding skew
  skew_balanced nil h = refl
  skew_balanced (node lv d l r) h = skew_black lv d l r (omega arith)

  pub split_balanced : (t : Tree A) → IsBalanced t → split t ≡ t
  unfolding split
  split_balanced nil h = refl
  split_balanced (node lv d l r) h = split_black lv d l r (omega arith)

  -- What a rebalanced node of the former level `lv` is like, where `was` is the former level of its
  -- right child: it loses at most one level, and has a right child at its level only if it had one.
  abbrev pub Settled : ℕ → ℕ → Tree A → Type 0
  Settled lv was u =
      IsBalanced u
      × ((suc (level u) ≡ lv)
          ⊎ ((level u ≡ lv) × (level (right u) < lv))
          ⊎ ((level u ≡ lv) × (was ≡ lv)))

  -- The right child has become two levels lower than the node.
  pub low_right :
      (n was : ℕ) (d : A) (l r : Tree A)
      → IsBalanced l
      → IsBalanced r
      → level l ≡ n
      → suc (level r) ≡ n
      → Settled (suc n) was (realign (node n d l r))
  unfolding realign on_right
  low_right n was d nil r hl hr e h = absurd (omega arith)
  low_right n was d (node k e a nil) r hl hr eq h =
      rw
        (
          skew_red n k d e a nil r eq (omega arith),
          skew_black n d nil r (omega arith),
          skew_balanced r hr,
          split_black k e a (node n d nil r) (omega arith),
          split_black n d nil r (ground arith),
        )
        (ground arith)
  low_right n was d (node k e a (node m f x y)) r hl hr eq h =
      rw (skew_red n k d e a (node m f x y) r eq (omega arith)) (elim (dec_lt m n) [
        | yes black ↦
            rw
              (
                skew_black n d (node m f x y) r black,
                skew_balanced r hr,
                split_black k e a (node n d (node m f x y) r) (omega arith),
                split_black n d (node m f x y) r (ground arith),
              )
              (ground arith)
        | no red ↦
            rw
              (
                skew_red n m d f x y r (omega arith) (omega arith),
                skew_black n d y r (omega arith),
                split_red k m n e f d a x y r (omega arith) (omega arith),
                split_black n d y r (ground arith),
              )
              (ground arith)
      ])

  -- The left child has become two levels lower than the node; the right child is one lower.
  pub low_left_black :
      (n was : ℕ) (d : A) (l r : Tree A)
      → IsBalanced l
      → IsBalanced r
      → suc (level l) ≡ n
      → level r ≡ n
      → Settled (suc n) was (realign (node n d l r))
  unfolding realign on_right
  low_left_black n was d l nil hl hr e h = absurd (omega arith)
  low_left_black n was d l (node k e a nil) hl hr eq h =
      rw
        (
          skew_black n d l (node k e a nil) (omega arith),
          skew_balanced (node k e a nil) hr,
          skew_balanced nil tt,
          split_black n d l (node k e a nil) (omega arith),
          split_balanced (node k e a nil) hr,
        )
        (ground arith)
  low_left_black n was d l (node k e a (node j f x y)) hl hr eq h =
      rw
        (
          skew_black n d l (node k e a (node j f x y)) (omega arith),
          skew_balanced (node k e a (node j f x y)) hr,
          skew_balanced (node j f x y) hr.5,
        )
        (elim (dec_lt j n) [
          | yes black ↦
              rw
                (
                  split_black n d l (node k e a (node j f x y)) black,
                  split_balanced (node k e a (node j f x y)) hr,
                )
                (ground arith)
          | no red ↦
              rw
                (
                  split_red n k j d e f l a x y (omega arith) (omega arith),
                  split_balanced (node j f x y) hr.5,
                )
                (ground arith)
        ])

  -- A right child that was at the level of the node is lowered with it. Its left child comes up
  -- between the two; where that has no right child at its level, the second split may still apply.
  pub low_left_red_tail :
      (n m j : ℕ) (d e f g : A) (l x y u v : Tree A)
      → IsBalanced l
      → IsBalanced (node m f x y)
      → IsBalanced (node j g u v)
      → suc (level l) ≡ n
      → m ≡ n
      → j ≡ n
      → level y < n
      → Settled (suc n) (suc n) (node (suc m) f (node n d l x) (split (node n e y (node j g u v))))
  low_left_red_tail n m j d e f g l x y u nil hl hx hu h hm hj hy =
      rw (split_black n e y (node j g u nil) (omega arith)) (ground arith)
  low_left_red_tail n m j d e f g l x y u (node i k s t) hl hx hu h hm hj hy = elim (dec_lt i n) [
    | yes black ↦ rw (split_black n e y (node j g u (node i k s t)) black) (ground arith)
    | no red ↦ rw (split_red n j i e g k y u s t (omega arith) (omega arith)) (ground arith)
  ]

  pub low_left_red :
      (n m : ℕ) (d e f : A) (l x y b : Tree A)
      → IsBalanced l
      → IsBalanced (node m f x y)
      → IsBalanced b
      → suc (level l) ≡ n
      → m ≡ n
      → level b ≡ n
      → Settled (suc n) (suc n) (realign (node n d l (node n e (node m f x y) b)))
  unfolding realign on_right
  low_left_red n m d e f l x y nil hl hx hb h hm hj = absurd (omega arith)
  low_left_red n m d e f l x nil (node j g u v) hl hx hb h hm hj =
      rw
        (
          skew_black n d l (node n e (node m f x nil) (node j g u v)) (omega arith),
          skew_red n m e f x nil (node j g u v) hm (omega arith),
          skew_black n e nil (node j g u v) (omega arith),
          split_red n m n d f e l x nil (node j g u v) refl (omega arith),
        )
        (low_left_red_tail n m j d e f g l x nil u v hl hx hb h hm hj (omega arith))
  low_left_red n m d e f l x (node p i s w) (node j g u v) hl hx hb h hm hj =
      rw
        (
          skew_black n d l (node n e (node m f x (node p i s w)) (node j g u v)) (omega arith),
          skew_red n m e f x (node p i s w) (node j g u v) hm (omega arith),
        )
        (elim (dec_lt p n) [
          | yes black ↦
              rw
                (
                  skew_black n e (node p i s w) (node j g u v) black,
                  split_red n m n d f e l x (node p i s w) (node j g u v) refl (omega arith),
                )
                (low_left_red_tail n m j d e f g l x (node p i s w) u v hl hx hb h hm hj black)
          | no red ↦
              rw
                (
                  skew_red n p e i s w (node j g u v) (omega arith) (omega arith),
                  split_red n m p d f i l x s (node n e w (node j g u v)) (omega arith)
                      (omega arith),
                  split_red p n j i e g s w u v (omega arith) (omega arith),
                )
                (ground arith)
        ])
