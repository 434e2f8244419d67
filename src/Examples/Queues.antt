-- ===== src/Examples/Queues.antt =====
-- src/queue.c: a queue of two numbers, and what the theorems say of it.
use casting.Base.{ℕ, ◌≡◌, refl, arith, true, none, some, [], ◌∷◌, pos, success}
use casting.Map.Node.{copied}
use casting.Queue.{Queue, pushed, node_data, queue_push, queue_pop}
use casting.Queue.Laws.{IsValid, contents, Pops, queue_push_lem, queue_pop_lem}

abbrev two : Queue ℕ
two = record {
  chain = record { addr = 8; item = some 1 } ∷ (record { addr = 16; item = some 2 } ∷ []);
  tail = some 16;
  copy = none;
  rel = true;
  size = pos 2;
}

two-IsValid : IsValid two
two-IsValid = record {
  tailed = refl;
  distinct = (((λ e. omega arith), tt), (tt, tt));
  counted = refl;
}

stored : node_data two.copy (some 3) ≡ copied (some 3)
unfolding node_data
stored = refl

queue_push_lem_example :
    (r : Queue ℕ) × (queue_push (some 24) two (some 3) ≡ pushed r success)
    × IsValid r
    × (contents r ≡ some 1 ∷ (some 2 ∷ (some 3 ∷ [])))
    × (r.copy ≡ none)
    × (r.rel ≡ true)
queue_push_lem_example =
    queue_push_lem two 24 (some 3) (some 3) two-IsValid
      ((λ e. omega arith), ((λ e. omega arith), tt)) stored

queue_pop_lem_example : IsValid (queue_pop two).0 × Pops two (queue_pop two)
queue_pop_lem_example = queue_pop_lem two two-IsValid
