-- ===== src/Conditions/Bounds.antt =====
-- The limits that Validate of internal/router/conditions puts on the size of a tree.
use senechal_gw.Prelude.{
  ℕ, suc, ◌+◌, ◌≤◌, String, ◌≡◌, refl, ◌⊎◌, inl, inr, Option, none, some, arith, leb, if◌then◌else◌,
}
use senechal_gw.Conditions.{
  Value, Condition, condition, Conditions, no_conditions, condition_then, Negation, no_negation,
  negation,
}
use senechal_gw.Conditions.Eval.{Library}
use senechal_gw.Conditions.Validate.{
  Problem, valid, max_depth, max_predicates, check_node, check_atomic, validate, validate_all,
  validate_root, unless,
}
use senechal_gw.Conditions.Sound.{node-valid}

-- The nodes that count: of a node with several modes, those that its first mode reaches.
unfoldable mutual
  pub predicates : Condition → ℕ
  predicates (condition path op value (condition_then c cs) any neg) =
      suc (predicates c + predicates_of cs)
  predicates (condition path op value no_conditions (condition_then c cs) neg) =
      suc (predicates c + predicates_of cs)
  predicates (condition path op value no_conditions no_conditions (negation c)) = suc (predicates c)
  predicates (condition path op value no_conditions no_conditions no_negation) = 1

  pub predicates_of : Conditions → ℕ
  predicates_of no_conditions = 0
  predicates_of (condition_then c cs) = predicates c + predicates_of cs

abbrev max : ℕ → ℕ → ℕ
max a b = if leb a b then b else a

unfoldable mutual
  pub height : Condition → ℕ
  height (condition path op value (condition_then c cs) any neg) =
      suc (max (height c) (height_of cs))
  height (condition path op value no_conditions (condition_then c cs) neg) =
      suc (max (height c) (height_of cs))
  height (condition path op value no_conditions no_conditions (negation c)) = suc (height c)
  height (condition path op value no_conditions no_conditions no_negation) = 1

  pub height_of : Conditions → ℕ
  height_of no_conditions = 0
  height_of (condition_then c cs) = max (height c) (height_of cs)

node-count :
    (path op : String) (value : Value) (all any : Conditions) (neg : Negation) (depth count : ℕ)
    {n : ℕ}
    → check_node path op value all any neg depth count ≡ valid n
    → (n ≡ suc count) × (depth ≤ max_depth) × (suc count ≤ max_predicates)
unfolding check_node
node-count path op value all any neg depth count {n} e = ground (arith, e)

-- What a validation that starts at `depth` after `count` predicates shows of its part of the tree.
record Fits (size height depth count m : ℕ) : Type 0 where
  counted : m ≡ count + size
  few : m ≤ max_predicates
  shallow : height + depth ≤ suc max_depth

-- The same of a list of trees, which may be empty.
record FitsAll (size height depth count m : ℕ) : Type 0 where
  counted : m ≡ count + size
  few : m ≤ max_predicates
  shallow : (height ≡ 0) ⊎ (height + depth ≤ suc max_depth)

join :
    (s h s' h' depth count : ℕ) {n k m : ℕ}
    → n ≡ suc count
    → Fits s h (suc depth) n k
    → FitsAll s' h' (suc depth) k m
    → Fits (suc (s + s')) (suc (max h h')) depth count m
join s h s' h' depth count e f g = record {
  counted = omega (arith, e, f.counted, g.counted);
  few = g.few;
  shallow = ground (arith, f.shallow, g.shallow);
}

join_all :
    (s h s' h' depth count : ℕ) {k m : ℕ}
    → Fits s h depth count k
    → FitsAll s' h' depth k m
    → FitsAll (s + s') (max h h') depth count m
join_all s h s' h' depth count f g = record {
  counted = omega (arith, f.counted, g.counted);
  few = g.few;
  shallow = inr (ground (arith, f.shallow, g.shallow));
}

unless-same : (o : Option Problem) (n : ℕ) {m : ℕ} → unless o n ≡ valid m → m ≡ n
unless-same none n e = ground (arith, e)
unless-same (some p) n e = cc

mutual
  unfolding validate predicates height

  tree-Fits :
      (l : Library) (c : Condition) (depth count : ℕ) {m : ℕ}
      → validate l c depth count ≡ valid m
      → Fits (predicates c) (height c) depth count m
  tree-Fits l (condition path op value (condition_then c cs) any neg) depth count {m} e =
      let (n, x, w) =
        node-valid (check_node path op value (condition_then c cs) any neg depth count) _ e in
      let (a, b, d) = node-count path op value (condition_then c cs) any neg depth count x in
      let (k, y, z) = node-valid (validate l c (suc depth) n) _ w in
      let f = tree-Fits l c (suc depth) n y in
      let g = list-FitsAll l cs (suc depth) k z f.few in
      join (predicates c) (height c) (predicates_of cs) (height_of cs) depth count a f g
  tree-Fits l (condition path op value no_conditions (condition_then c cs) neg) depth count {m} e =
      let (n, x, w) =
        node-valid (check_node path op value no_conditions (condition_then c cs) neg depth count) _
          e in
      let (a, b, d) =
        node-count path op value no_conditions (condition_then c cs) neg depth count x in
      let (k, y, z) = node-valid (validate l c (suc depth) n) _ w in
      let f = tree-Fits l c (suc depth) n y in
      let g = list-FitsAll l cs (suc depth) k z f.few in
      join (predicates c) (height c) (predicates_of cs) (height_of cs) depth count a f g
  tree-Fits l (condition path op value no_conditions no_conditions (negation c)) depth count {m} e =
      let (n, x, w) =
        node-valid (check_node path op value no_conditions no_conditions (negation c) depth count) _
          e in
      let (a, b, d) =
        node-count path op value no_conditions no_conditions (negation c) depth count x in
      let f = tree-Fits l c (suc depth) n w in
      record {
        counted = omega (arith, a, f.counted);
        few = f.few;
        shallow = omega (arith, f.shallow);
      }
  tree-Fits l (condition path op value no_conditions no_conditions no_negation) depth count {m} e =
      let (n, x, w) =
        node-valid (check_node path op value no_conditions no_conditions no_negation depth count) _
          e in
      let (a, b, d) =
        node-count path op value no_conditions no_conditions no_negation depth count x in
      let q = unless-same (check_atomic l path op value) n w in
      record {
        counted = omega (arith, a, q);
        few = omega (arith, a, d, q);
        shallow = omega (arith, b);
      }

  list-FitsAll :
      (l : Library) (cs : Conditions) (depth count : ℕ) {m : ℕ}
      → validate_all l cs depth count ≡ valid m
      → count ≤ max_predicates
      → FitsAll (predicates_of cs) (height_of cs) depth count m
  list-FitsAll l no_conditions depth count {m} e h = record {
    counted = ground (arith, e);
    few = ground (arith, e, h);
    shallow = inl refl;
  }
  list-FitsAll l (condition_then c cs) depth count {m} e h =
      let (k, y, z) = node-valid (validate l c depth count) _ e in
      let f = tree-Fits l c depth count y in
      let g = list-FitsAll l cs depth k z f.few in
      join_all (predicates c) (height c) (predicates_of cs) (height_of cs) depth count f g

-- A tree that Validate accepts has at most 20 predicates, and Validate has counted each of them once; it
-- is at most 3 levels deep.
pub validate-fits :
    (l : Library) (c : Condition) {n : ℕ}
    → validate_root l c ≡ valid n
    → (n ≡ predicates c) × (predicates c ≤ max_predicates) × (height c ≤ max_depth)
unfolding validate_root
validate-fits l c {n} e =
    let f = tree-Fits l c 1 0 e in
    (omega (arith, f.counted), omega (arith, f.counted, f.few), omega (arith, f.shallow))
