-- ===== src/Map/Cursor/Walks.antt =====
-- src/map.c: a walk with a cursor reads the items in order.
use casting.Base.{
  ℕ, zero, suc, ◌≡◌, refl, sym, ◌∙◌, ap, arith, Bool, true, false, not, Option, none, some, List,
  [], ◌∷◌, ◌++◌, map, append-nil, append_assoc, length, length-append,
}
use casting.Map.Node.{Tree, nil, node, ordered}
use casting.Map.{Map, map_ordered}
use casting.Map.Cursor.{
  Cursor, at_node, link, item, far, climb, move, start, map_first, map_last, map_next, map_prev,
}

module _ {ℓ} {A : Type ℓ} where
  -- The items of a tree in the order of a walk.
  abbrev pub along : Bool → Tree A → List A
  along dir nil = []
  along true (node lv d l r) = along true l ++ (d ∷ along true r)
  along false (node lv d l r) = along false r ++ (d ∷ along false l)

  -- The items that are left above the current node.
  abbrev above : Bool → List (Tree A × Bool) → List A
  above dir [] = []
  above true ((t, true) ∷ p) = above true p
  above true ((nil, false) ∷ p) = []
  above true ((node lv d l r, false) ∷ p) = d ∷ (along true r ++ above true p)
  above false ((t, false) ∷ p) = above false p
  above false ((nil, true) ∷ p) = []
  above false ((node lv d l r, true) ∷ p) = d ∷ (along false l ++ above false p)

  -- The items from a node on.
  abbrev ahead_at : Bool → Tree A → List (Tree A × Bool) → List A
  ahead_at dir nil p = []
  ahead_at dir (node lv d l r) p = d ∷ (along dir (link dir (node lv d l r)) ++ above dir p)

  abbrev ahead : Bool → Cursor A → List A
  ahead dir c = ahead_at dir c.it c.path

  far_first :
      (lv : ℕ) (d : A) (l r : Tree A) (p : List (Tree A × Bool))
      → ahead true (far false (node lv d l r) p) ≡ along true (node lv d l r) ++ above true p
  unfolding far
  far_first lv d nil r p = refl
  far_first lv d (node k e a b) r p =
      far_first k e a b ((node lv d (node k e a b) r, false) ∷ p)
      ∙ sym (append_assoc (along true (node k e a b)) (d ∷ along true r) (above true p))

  far_last :
      (lv : ℕ) (d : A) (l r : Tree A) (p : List (Tree A × Bool))
      → ahead false (far true (node lv d l r) p) ≡ along false (node lv d l r) ++ above false p
  unfolding far
  far_last lv d l nil p = refl
  far_last lv d l (node k e a b) p =
      far_last k e a b ((node lv d l (node k e a b), true) ∷ p)
      ∙ sym (append_assoc (along false (node k e a b)) (d ∷ along false l) (above false p))

  ahead-climb : (dir : Bool) (p : List (Tree A × Bool)) → ahead dir (climb dir p) ≡ above dir p
  unfolding climb
  ahead-climb true [] = refl
  ahead-climb false [] = refl
  ahead-climb true ((t, true) ∷ p) = ahead-climb true p
  ahead-climb true ((nil, false) ∷ p) = refl
  ahead-climb true ((node lv d l r, false) ∷ p) = refl
  ahead-climb false ((t, false) ∷ p) = ahead-climb false p
  ahead-climb false ((nil, true) ∷ p) = refl
  ahead-climb false ((node lv d l r, true) ∷ p) = refl

  ahead-move :
      (dir : Bool) (lv : ℕ) (d : A) (l r : Tree A) (p : List (Tree A × Bool))
      → ahead dir (move dir (at_node (node lv d l r) p))
        ≡ along dir (link dir (node lv d l r)) ++ above dir p
  unfolding move
  ahead-move true lv d l nil p = ahead-climb true p
  ahead-move true lv d l (node k e a b) p =
      far_first k e a b ((node lv d l (node k e a b), true) ∷ p)
  ahead-move false lv d nil r p = ahead-climb false p
  ahead-move false lv d (node k e a b) r p =
      far_last k e a b ((node lv d (node k e a b) r, false) ∷ p)

  -- What a cursor gives now and after each of `n` moves.
  abbrev pub reads : ℕ → Bool → Cursor A → List (Option A)
  reads zero dir c = item c.it ∷ []
  reads (suc n) dir c = item c.it ∷ reads n dir (move dir c)

  reads_ahead :
      (n : ℕ) (dir : Bool) (t : Tree A) (p : List (Tree A × Bool))
      → length (ahead_at dir t p) ≡ n
      → reads n dir (at_node t p) ≡ map some (ahead_at dir t p) ++ (none ∷ [])
  reads_ahead zero dir nil p h = refl
  reads_ahead zero dir (node lv d l r) p h = absurd (omega arith)
  reads_ahead (suc n) dir nil p h = absurd (omega arith)
  reads_ahead (suc n) dir (node lv d l r) p h =
      let c = move dir (at_node (node lv d l r) p) in
      let e = ahead-move dir lv d l r p in
      ap (λ xs. some d ∷ xs)
        (reads_ahead n dir c.it c.path (ap length e ∙ omega arith)
          ∙ ap (λ xs. map some xs ++ (none ∷ [])) e)

  along-ordered : (t : Tree A) → along true t ≡ ordered t
  along-ordered nil = refl
  along-ordered (node lv d l r) = rw (along-ordered l, along-ordered r) refl

  abbrev pub reverse : List A → List A
  reverse [] = []
  reverse (x ∷ xs) = reverse xs ++ (x ∷ [])

  reverse-append : (xs ys : List A) → reverse (xs ++ ys) ≡ reverse ys ++ reverse xs
  reverse-append [] ys = sym (append-nil (reverse ys))
  reverse-append (x ∷ xs) ys =
      ap (λ zs. zs ++ (x ∷ [])) (reverse-append xs ys)
      ∙ append_assoc (reverse ys) (reverse xs) (x ∷ [])

  along-reverse : (t : Tree A) → along false t ≡ reverse (ordered t)
  along-reverse nil = refl
  along-reverse (node lv d l r) =
      rw (along-reverse l, along-reverse r, reverse-append (ordered l) (d ∷ ordered r))
        (sym (append_assoc (reverse (ordered r)) (d ∷ []) (reverse (ordered l))))

  ahead-start : (m : Map A) (dir : Bool) → ahead dir (start m (not dir)) ≡ along dir m.root
  unfolding start far
  ahead-start m true = go m.root
    where
      go : (t : Tree A) → ahead true (far false t []) ≡ along true t
      go nil = refl
      go (node lv d l r) = far_first lv d l r [] ∙ append-nil (along true (node lv d l r))
  ahead-start m false = go m.root
    where
      go : (t : Tree A) → ahead false (far true t []) ≡ along false t
      go nil = refl
      go (node lv d l r) = far_last lv d l r [] ∙ append-nil (along false (node lv d l r))

  length-reverse : (xs : List A) → length (reverse xs) ≡ length xs
  length-reverse [] = refl
  length-reverse (x ∷ xs) = omega (arith, length-append (reverse xs) (x ∷ []), length-reverse xs)

  -- The data that a call gave, and that each of `n` calls after it gives.
  abbrev pub walk_next : ℕ → Cursor A × Option A → List (Option A)
  walk_next zero (c, x) = x ∷ []
  walk_next (suc n) (c, x) = x ∷ walk_next n (map_next c)

  abbrev pub walk_prev : ℕ → Cursor A × Option A → List (Option A)
  walk_prev zero (c, x) = x ∷ []
  walk_prev (suc n) (c, x) = x ∷ walk_prev n (map_prev c)

  walk_next-reads : (n : ℕ) (c : Cursor A) → walk_next n (c, item c.it) ≡ reads n true c
  unfolding map_next
  walk_next-reads zero c = refl
  walk_next-reads (suc n) c = ap (λ xs. item c.it ∷ xs) (walk_next-reads n (move true c))

  walk_prev-reads : (n : ℕ) (c : Cursor A) → walk_prev n (c, item c.it) ≡ reads n false c
  unfolding map_prev
  walk_prev-reads zero c = refl
  walk_prev-reads (suc n) c = ap (λ xs. item c.it ∷ xs) (walk_prev-reads n (move false c))

  reads-start :
      (m : Map A) (dir : Bool) (xs : List A)
      → along dir m.root ≡ xs
      → reads (length xs) dir (start m (not dir)) ≡ map some xs ++ (none ∷ [])
  reads-start m dir xs e =
      let c = start m (not dir) in
      let f = ahead-start m dir ∙ e in
      reads_ahead (length xs) dir c.it c.path (ap length f)
      ∙ ap (λ ys. map some ys ++ (none ∷ [])) f

  -- On any map, `map_first` and then as many calls of `map_next` as the map has nodes give the
  -- data in the order of `map_ordered`, and NULL at last; `map_last` and `map_prev` give them
  -- the other way round, and NULL at last.
  pub walk-map_ordered :
      (m : Map A)
      → let xs = map_ordered m in
        (walk_next (length xs) (map_first m) ≡ map some xs ++ (none ∷ []))
        × (walk_prev (length xs) (map_last m) ≡ map some (reverse xs) ++ (none ∷ []))
  unfolding map_first map_last map_ordered
  walk-map_ordered m = (
    walk_next-reads (length (ordered m.root)) (start m false)
        ∙ reads-start m true (ordered m.root) (along-ordered m.root),
    walk_prev-reads (length (ordered m.root)) (start m true)
        ∙ ap (λ n. reads n false (start m true)) (sym (length-reverse (ordered m.root)))
        ∙ reads-start m false (reverse (ordered m.root)) (along-reverse m.root),
  )
