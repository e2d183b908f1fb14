-- ===== src/Context/Pools.antt =====
-- Pools of candidates by kind, and how `_compile_attention` of
-- src/cognition/runtime/context.py empties them: the pools are a map in the order of its keys, and
-- `any(pools.values())` and `for kind in sorted(pools)` are one round of the loop.
use Prim.Native.Nat.{Ordering}
use Prim.Native.String.{compare}
use cognition.Prelude.{
  ℕ, zero, suc, ◌+◌, ◌≤◌, ◌≡◌, refl, sym, ◌∙◌, ap, Bool, true, false, List, [], ◌∷◌, ◌++◌, String,
  arith, Bool-cases, inl, inr, if◌then◌else◌, length, count, count-append, max,
}

module _ {ℓ} {A : Type ℓ} where
  -- `pools[kind].append(x)`
  abbrev pub push : String → A → List (String × List A) → List (String × List A)
  push kind x [] = (kind, x ∷ []) ∷ []
  push kind x (pool ∷ pools) = elim (compare kind pool.0) [
    | Ordering.lt ↦ (kind, x ∷ []) ∷ pool ∷ pools
    | Ordering.eq ↦ (pool.0, pool.1 ++ x ∷ []) ∷ pools
    | Ordering.gt ↦ pool ∷ push kind x pools
  ]

  abbrev tail : List A → List A
  tail [] = []
  tail (x ∷ xs) = xs

  -- What one round takes: the first member of every pool that has one.
  abbrev heads : List (String × List A) → List A
  heads [] = []
  heads ((kind, []) ∷ pools) = heads pools
  heads ((kind, x ∷ xs) ∷ pools) = x ∷ heads pools

  abbrev tails : List (String × List A) → List (String × List A)
  tails [] = []
  tails ((kind, xs) ∷ pools) = (kind, tail xs) ∷ tails pools

  abbrev pub contents : List (String × List A) → List A
  contents [] = []
  contents ((kind, xs) ∷ pools) = xs ++ contents pools

  abbrev some_left : List (String × List A) → Bool
  some_left [] = false
  some_left ((kind, []) ∷ pools) = some_left pools
  some_left ((kind, x ∷ xs) ∷ pools) = true

  abbrev drain_rounds : ℕ → List (String × List A) → List A
  drain_rounds zero pools = []
  drain_rounds (suc n) pools =
      let rest = drain_rounds n (tails pools) in if some_left pools then heads pools ++ rest else []

  -- The `while` loop. A round takes a member at least.
  unfoldable pub drain : List (String × List A) → List A
  drain pools = drain_rounds (length (contents pools)) pools

  -- The member at a position, where there is one.
  abbrev slot : ℕ → List A → List A
  slot k [] = []
  slot zero (x ∷ xs) = x ∷ []
  slot (suc k) (x ∷ xs) = slot k xs

  -- The members at one position, in the order of the kinds.
  abbrev pub row : ℕ → List (String × List A) → List A
  row k [] = []
  row k ((kind, xs) ∷ pools) = slot k xs ++ row k pools

  -- The n rows from a position on.
  abbrev pub rows : ℕ → ℕ → List (String × List A) → List A
  rows k zero pools = []
  rows k (suc n) pools = row k pools ++ rows (suc k) n pools

  abbrev pub longest : List (String × List A) → ℕ
  longest [] = 0
  longest ((kind, xs) ∷ pools) = max (length xs) (longest pools)

module _ {ℓ} {A : Type ℓ} where
  heads-row : (pools : List (String × List A)) → heads pools ≡ row 0 pools
  heads-row [] = refl
  heads-row ((kind, []) ∷ pools) = heads-row pools
  heads-row ((kind, x ∷ xs) ∷ pools) = ap (λ r. x ∷ r) (heads-row pools)

  slot-tail : (k : ℕ) (xs : List A) → slot k (tail xs) ≡ slot (suc k) xs
  slot-tail k [] = refl
  slot-tail k (x ∷ xs) = refl

  row-tails : (k : ℕ) (pools : List (String × List A)) → row k (tails pools) ≡ row (suc k) pools
  row-tails k [] = refl
  row-tails k ((kind, xs) ∷ pools) = rw (slot-tail k xs, row-tails k pools) refl

  rows-tails :
      (k n : ℕ) (pools : List (String × List A)) → rows k n (tails pools) ≡ rows (suc k) n pools
  rows-tails k zero pools = refl
  rows-tails k (suc n) pools = rw (row-tails k pools, rows-tails (suc k) n pools) refl

  longest-tails : (pools : List (String × List A)) → longest pools ≤ suc (longest (tails pools))
  longest-tails [] = omega arith
  longest-tails ((kind, []) ∷ pools) = ground (arith, longest-tails pools)
  longest-tails ((kind, x ∷ xs) ∷ pools) = ground (arith, longest-tails pools)

  longest-tails-le :
      (n : ℕ) (pools : List (String × List A)) → longest pools ≤ suc n → longest (tails pools) ≤ n
  longest-tails-le n [] h = omega arith
  longest-tails-le n ((kind, []) ∷ pools) h = ground (arith, longest-tails-le n pools)
  longest-tails-le n ((kind, x ∷ xs) ∷ pools) h = ground (arith, longest-tails-le n pools)

  length-append : (xs ys : List A) → length (xs ++ ys) ≡ length xs + length ys
  length-append [] ys = omega arith
  length-append (x ∷ xs) ys = omega (arith, length-append xs ys)

  longest-contents-le : (pools : List (String × List A)) → longest pools ≤ length (contents pools)
  longest-contents-le [] = omega arith
  longest-contents-le ((kind, xs) ∷ pools) =
      ground (arith, longest-contents-le pools, length-append xs (contents pools))

  slot_past : (k : ℕ) (xs : List A) → length xs ≤ k → slot k xs ≡ []
  slot_past k [] h = refl
  slot_past zero (x ∷ xs) h = ground arith
  slot_past (suc k) (x ∷ xs) h = slot_past k xs (omega arith)

  row_past : (k : ℕ) (pools : List (String × List A)) → longest pools ≤ k → row k pools ≡ []
  row_past k [] h = refl
  row_past k ((kind, xs) ∷ pools) h =
      rw (slot_past k xs (ground arith), row_past k pools (ground arith)) refl

  rows_past : (k n : ℕ) (pools : List (String × List A)) → longest pools ≤ k → rows k n pools ≡ []
  rows_past k zero pools h = refl
  rows_past k (suc n) pools h =
      rw (row_past k pools h, rows_past (suc k) n pools (omega arith)) refl

  rows_enough :
      (k m n : ℕ) (pools : List (String × List A))
      → longest pools ≤ k + m
      → m ≤ n
      → rows k n pools ≡ rows k m pools
  rows_enough k zero n pools h le = rows_past k n pools (omega arith)
  rows_enough k (suc m) zero pools h le = ground arith
  rows_enough k (suc m) (suc n) pools h le =
      rw (rows_enough (suc k) m n pools (omega arith) (omega arith)) refl

  some_left-false : (pools : List (String × List A)) → some_left pools ≡ false → longest pools ≤ 0
  some_left-false [] h = omega arith
  some_left-false ((kind, []) ∷ pools) h = ground (arith, some_left-false pools)
  some_left-false ((kind, x ∷ xs) ∷ pools) h = absurd cc

  drain_rounds-rows :
      (n : ℕ) (pools : List (String × List A)) → drain_rounds n pools ≡ rows 0 n pools
  drain_rounds-rows zero pools = refl
  drain_rounds-rows (suc n) pools = elim (Bool-cases (some_left pools)) [
    | inl more ↦
        rw (more, heads-row pools, drain_rounds-rows n (tails pools), rows-tails 0 n pools) refl
    | inr empty ↦ rw empty (sym (rows_past 0 (suc n) pools (some_left-false pools empty)))
  ]

  -- For any pools: emptying them yields their members row by row, every kind's first member in
  -- the order of the kinds, then every kind's second one, and so on to the end of the longest
  -- pool.
  pub drain-rows : (pools : List (String × List A)) → drain pools ≡ rows 0 (longest pools) pools
  unfolding drain
  drain-rows pools =
      drain_rounds-rows (length (contents pools)) pools
      ∙ rows_enough 0 (longest pools) (length (contents pools)) pools (omega arith)
          (longest-contents-le pools)

  count-round :
      (p : A → Bool) (pools : List (String × List A))
      → count p (heads pools) + count p (contents (tails pools)) ≡ count p (contents pools)
  count-round p [] = omega arith
  count-round p ((kind, []) ∷ pools) = count-round p pools
  count-round p ((kind, x ∷ xs) ∷ pools) = ground (
    arith,
    count-round p pools,
    count-append p xs (contents (tails pools)),
    count-append p xs (contents pools),
  )

  longest-none :
      (p : A → Bool) (pools : List (String × List A))
      → longest pools ≤ 0
      → count p (contents pools) ≡ 0
  longest-none p [] h = refl
  longest-none p ((kind, []) ∷ pools) h = ground (arith, longest-none p pools)
  longest-none p ((kind, x ∷ xs) ∷ pools) h = ground arith

  count-drain_rounds :
      (p : A → Bool) (n : ℕ) (pools : List (String × List A))
      → longest pools ≤ n
      → count p (drain_rounds n pools) ≡ count p (contents pools)
  count-drain_rounds p zero pools h = sym (longest-none p pools h)
  count-drain_rounds p (suc n) pools h = elim (Bool-cases (some_left pools)) [
    | inl more ↦
        rw
          (
            more,
            count-append p (heads pools) (drain_rounds n (tails pools)),
            count-drain_rounds p n (tails pools) (longest-tails-le n pools h),
          )
          (count-round p pools)
    | inr empty ↦ rw empty (sym (longest-none p pools (some_left-false pools empty)))
  ]

  -- For any pools and any test: what emptying them yields passes the test as often as their
  -- members do, so that the loop ends with no member left behind.
  pub count-drain :
      (p : A → Bool) (pools : List (String × List A))
      → count p (drain pools) ≡ count p (contents pools)
  unfolding drain
  count-drain p pools =
      count-drain_rounds p (length (contents pools)) pools (longest-contents-le pools)

  pub count-push :
      (p : A → Bool) (kind : String) (x : A) (pools : List (String × List A))
      → count p (contents (push kind x pools)) ≡ count p (x ∷ contents pools)
  count-push p kind x [] = refl
  count-push p kind x ((k, xs) ∷ pools) = ground (
    arith,
    count-push p kind x pools,
    count-append p xs (x ∷ []),
    count-append p (xs ++ x ∷ []) (contents pools),
    count-append p xs (contents pools),
    count-append p xs (contents (push kind x pools)),
  )
