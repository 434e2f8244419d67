-- ===== src/Map/Balance.antt =====
-- src/map.c: the levels of an Andersson tree.
pub mod Realign
pub mod Shrink
pub mod Walk
pub mod Depth
use casting.Base.{ℕ, suc, ◌≤◌, ◌<◌, ◌≡◌, ◌⊎◌, inl, inr, refl, arith, dec_lt}
use casting.Map.Node.{Tree, nil, node, level, right, skew, split}

module _ {ℓ} {A : Type ℓ} where
  -- A left child is one level down, a right child at most one, a right grandchild at least one.
  abbrev pub IsBalanced : Tree A → Type 0
  IsBalanced nil = Unit
  IsBalanced (node lv d l r) =
      (suc (level l) ≡ lv)
      × (level r ≤ lv)
      × (lv ≤ suc (level r))
      × (level (right r) < lv)
      × IsBalanced l
      × IsBalanced r

  -- What an insertion makes of a subtree. It gains a level only if its right child was at its level.
  abbrev pub Grown : Tree A → Tree A → Type 0
  Grown t u =
      IsBalanced u
      × ((level u ≡ level t)
          ⊎ ((level u ≡ suc (level t)) × (level (right u) ≡ level t) × (level (right t) ≡ level t)))

  -- The rotations at the shapes that occur.
  pub skew_black :
      (lv : ℕ) (d : A) (l r : Tree A) → level l < lv → skew (node lv d l r) ≡ node lv d l r
  unfolding skew
  skew_black lv d nil r h = refl
  skew_black lv d (node k e a b) r h = ground arith

  pub skew_red :
      (lv k : ℕ) (d e : A) (a b r : Tree A)
      → k ≡ lv
      → 0 < lv
      → skew (node lv d (node k e a b) r) ≡ node k e a (node lv d b r)
  unfolding skew
  skew_red lv k d e a b r h z = ground arith

  pub split_black :
      (lv : ℕ) (d : A) (l r : Tree A) → level (right r) < lv → split (node lv d l r) ≡ node lv d l r
  unfolding split
  split_black lv d l nil h = refl
  split_black lv d l (node k e a nil) h = refl
  split_black lv d l (node k e a (node j f b c)) h = ground arith

  pub split_red :
      (lv k j : ℕ) (d e f : A) (l a b c : Tree A)
      → j ≡ lv
      → 0 < lv
      → split (node lv d l (node k e a (node j f b c)))
        ≡ node (suc k) e (node lv d l a) (node j f b c)
  unfolding split
  split_red lv k j d e f l a b c h z = ground arith

  -- The left child has gained a level, and stands at the level of its parent.
  lifted_left :
      (lv k : ℕ) (d e : A) (l a b r : Tree A)
      → IsBalanced (node lv d l r)
      → IsBalanced (node k e a b)
      → k ≡ lv
      → level b < lv
      → Grown (node lv d l r) (split (skew (node lv d (node k e a b) r)))
  lifted_left lv k d e l a b nil t u h h' =
      rw
        (
          skew_red lv k d e a b nil h (omega arith),
          split_black k e a (node lv d b nil) (omega arith),
        )
        (ground arith)
  lifted_left lv k d e l a b (node j f x y) t u h h' =
      rw (skew_red lv k d e a b (node j f x y) h (omega arith)) (elim (dec_lt j lv) [
        | yes black ↦
            rw (split_black k e a (node lv d b (node j f x y)) (omega arith)) (ground arith)
        | no red ↦ rw (split_red k lv j e d f a b x y (omega arith) (omega arith)) (ground arith)
      ])

  pub Grown-left :
      (lv : ℕ) (d : A) (l r l' : Tree A)
      → IsBalanced (node lv d l r)
      → Grown l l'
      → Grown (node lv d l r) (split (skew (node lv d l' r)))
  Grown-left lv d l r l' t (u, inl e) =
      rw (skew_black lv d l' r (omega (arith, e, t.0)), split_black lv d l' r (omega (arith, t.3)))
        (ground arith)
  Grown-left lv d l r nil t (u, inr (e, h, h')) = absurd (omega arith)
  Grown-left lv d l r (node k e a b) t (u, inr (h, h', _)) =
      lifted_left lv k d e l a b r t u (omega arith) (omega arith)

  pub Grown-right :
      (lv : ℕ) (d : A) (l r r' : Tree A)
      → IsBalanced (node lv d l r)
      → Grown r r'
      → Grown (node lv d l r) (split (skew (node lv d l r')))
  Grown-right lv d l r nil t g =
      rw (skew_black lv d l nil (omega arith), split_black lv d l nil (omega arith)) (ground arith)
  Grown-right lv d l r (node k e a nil) t g =
      rw
        (
          skew_black lv d l (node k e a nil) (omega arith),
          split_black lv d l (node k e a nil) (omega arith),
        )
        (ground arith)
  Grown-right lv d l r (node k e a (node j f x y)) t (u, g) =
      rw (skew_black lv d l (node k e a (node j f x y)) (omega arith)) (elim (dec_lt j lv) [
        | yes black ↦
            rw (split_black lv d l (node k e a (node j f x y)) (omega arith)) (ground arith)
        | no red ↦ rw (split_red lv k j d e f l a x y (ground arith) (omega arith)) (ground arith)
      ])
