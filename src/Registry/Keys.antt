-- ===== src/Registry/Keys.antt =====
-- Entries ordered by a number, as `cmp_channel`, `cmp_session` and `cmp_task` do.
use Prim.Native.Nat.{compare}
use casting.Base.{arith, Ordering}
use casting.Map.Sorted.{IsOrder}
use casting.Registry.{compare_ℤ}

pub ℕ-IsOrder : IsOrder compare
ℕ-IsOrder = record {
  cmp_refl = λ a. ground arith;
  gt_of_lt = λ a b e. ground arith;
  lt_of_gt = λ a b e. ground arith;
  eq_of_eq = λ a b e. ground arith;
  cmp_congr = λ a b c e. ground arith;
  lt_trans = λ a b c e k. ground arith;
}

pub ℤ-IsOrder : IsOrder compare_ℤ
ℤ-IsOrder = record {
  cmp_refl = λ a. ground arith;
  gt_of_lt = λ a b e. ground arith;
  lt_of_gt = λ a b e. ground arith;
  eq_of_eq = λ a b e. ground arith;
  cmp_congr = λ a b c e. ground arith;
  lt_trans = λ a b c e k. ground arith;
}

module _ {ℓ κ} {A : Type ℓ} {K : Type κ} (cmp : K → K → Ordering) (o : IsOrder cmp)
    (key : A → K) where
  pub by_key-IsOrder : IsOrder (λ a b. cmp (key a) (key b))
  by_key-IsOrder = record {
    cmp_refl = λ a. o.cmp_refl (key a);
    gt_of_lt = λ a b e. o.gt_of_lt (key a) (key b) e;
    lt_of_gt = λ a b e. o.lt_of_gt (key a) (key b) e;
    eq_of_eq = λ a b e. o.eq_of_eq (key a) (key b) e;
    cmp_congr = λ a b c e. o.cmp_congr (key a) (key b) (key c) e;
    lt_trans = λ a b c e k. o.lt_trans (key a) (key b) (key c) e k;
  }
