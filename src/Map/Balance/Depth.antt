-- ===== src/Map/Balance/Depth.antt =====
-- src/map.h: `HEIGHT_LIMIT` bounds every path of a tree with fewer than 2^32 - 1 nodes.
use native.Mathlib.Nat.{pow-suc, zero-add, suc-add}
use casting.Base.{
  ℕ, zero, suc, ◌+◌, ◌-◌, ◌*◌, ◌^◌, ◌≤◌, ◌<◌, ◌≡◌, arith, dec_lt, ◌∷◌, length, length-append,
}
use casting.Map.Node.{Tree, nil, node, level, right, depth, ordered, height_limit}
use casting.Map.Balance.{IsBalanced}

pow_mono : (a n : ℕ) → 2 ^ n ≤ 2 ^ (a + n)
pow_mono zero n = rw zero-add (omega arith)
pow_mono (suc a) n = rw (suc-add, pow-suc) (omega (arith, pow_mono a n))

module _ {ℓ} {A : Type ℓ} where
  -- Two nodes for each level; one less where the right child is a level down.
  depth-le : (t : Tree A) → IsBalanced t → depth t + (level t - level (right t)) ≤ 2 * level t
  depth-le nil b = omega arith
  depth-le (node lv d l r) b = omega (arith, depth-le l b.4, depth-le r b.5)

  pow-level-le : (t : Tree A) → IsBalanced t → 2 ^ level t ≤ suc (length (ordered t))
  pow-level-le nil b = omega arith
  pow-level-le (node lv d l r) b = omega (
    arith,
    length-append (ordered l) (d ∷ ordered r),
    pow-level-le l b.4,
    pow-level-le r b.5,
    rw b.0 at (pow-suc 2 (level l)),
    pow-level-mono,
  )
    where
      pow-level-mono : 2 ^ level l ≤ 2 ^ level r
      pow-level-mono =
          let e : level r - level l + level l ≡ level r = omega arith in
          rw e at (pow_mono (level r - level l) (level l))

  -- A balanced tree of fewer than 2^32 - 1 items has paths of fewer than HEIGHT_LIMIT - 1 nodes.
  pub depth-lt-limit :
      (t : Tree A) → IsBalanced t → length (ordered t) < 2 ^ 32 - 1 → suc (depth t) < height_limit
  depth-lt-limit t b h = elim (dec_lt (level t) 32) [
    | yes low ↦ omega (arith, depth-le t b)
    | no high ↦
        let e : level t - 32 + 32 ≡ level t = omega arith in
        absurd (omega (arith, pow-level-le t b, rw e at (pow_mono (level t - 32) 32)))
  ]
