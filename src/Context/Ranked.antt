-- ===== src/Context/Ranked.antt =====
-- Candidates in their order, and one of them for each first reference: `sorted` with the key
-- `_candidate_order`, and the dictionary `unique` of `_compile_attention`, in
-- src/cognition/runtime/context.py. `sorted` is stable, as the insertion is here.
use cognition.Prelude.{
  ℕ, ◌≤◌, ◌<◌, ◌≡◌, refl, sym, ◌∙◌, Bool, true, false, some, String, List, [], ◌∷◌, ◌++◌, arith,
  str_eq, str_eq_iff, if◌then◌else◌, any, All, find, find-none, find-eq-some, count, count-append,
  count-pos, Bool-cases, Option-cases, inl, inr,
}
use cognition.Protocol.Ref.{Ref}
use cognition.Store.Result.{Result, ok, Error, ◌>>=◌, require}
use cognition.Context.{AttentionCandidate, Rendering, ref_key}
use cognition.Context.Order.{
  OrderKey, candidate_order, stands_after, stands_after-true, stands_after-false, first_ref,
}

-- A candidate with its key and with the first of its references.
pub record Ranked : Type 0 where
  pub candidate : AttentionCandidate
  pub first : Ref
  pub key : OrderKey

unfoldable pub ranked : Rendering → AttentionCandidate → Result Ranked
unfolding candidate_order
ranked g c = do
  key ← candidate_order g c
  first ← require (first_ref c.section) Error.value_error
  ok (record { candidate = c; first = first; key = key })

unfoldable pub rank_all : Rendering → List AttentionCandidate → Result (List Ranked)
unfolding ranked
rank_all g [] = ok []
rank_all g (c ∷ cs) = do r ← ranked g c; rs ← rank_all g cs; ok (r ∷ rs)

abbrev pub insert : Ranked → List Ranked → List Ranked
insert r [] = r ∷ []
insert r (s ∷ ss) =
    let rest = insert r ss in if stands_after r.key s.key then s ∷ rest else r ∷ s ∷ ss

abbrev pub sorted : List Ranked → List Ranked
sorted [] = []
sorted (r ∷ rs) = insert r (sorted rs)

-- A test of `_ref_key(candidate.section.refs[0])`.
abbrev pub has_key : String → Ranked → Bool
has_key name r = str_eq (ref_key r.first) name

-- `unique.setdefault`
abbrev setdefault : Ranked → List Ranked → List Ranked
setdefault r table = if any (has_key (ref_key r.first)) table then table else table ++ r ∷ []

abbrev pub collect : List Ranked → List Ranked → List Ranked
collect table [] = table
collect table (r ∷ rs) = collect (setdefault r table) rs

abbrev pub unique : List Ranked → List Ranked
unique rs = collect [] (sorted rs)

-- No one stands before someone of a lower rank.
abbrev ByRank : List Ranked → Type 0
ByRank [] = Unit
ByRank (r ∷ rs) = All (λ s. r.key.rank ≤ s.key.rank) rs × ByRank rs

All-insert :
    (n : ℕ) (r : Ranked) (rs : List Ranked)
    → n ≤ r.key.rank
    → All (λ s. n ≤ s.key.rank) rs
    → All (λ s. n ≤ s.key.rank) (insert r rs)
All-insert n r [] h hs = (h, tt)
All-insert n r (s ∷ ss) h hs = elim (Bool-cases (stands_after r.key s.key)) [
  | inl e ↦ rw e (hs.0, All-insert n r ss h hs.1)
  | inr e ↦ rw e (h, hs)
]

All-weaken :
    (m n : ℕ) (rs : List Ranked)
    → m ≤ n
    → All (λ s. n ≤ s.key.rank) rs
    → All (λ s. m ≤ s.key.rank) rs
All-weaken m n [] h hs = tt
All-weaken m n (s ∷ ss) h hs = (omega (arith, hs.0), All-weaken m n ss h hs.1)

insert-ByRank : (r : Ranked) (rs : List Ranked) → ByRank rs → ByRank (insert r rs)
insert-ByRank r [] h = (tt, tt)
insert-ByRank r (s ∷ ss) h = elim (Bool-cases (stands_after r.key s.key)) [
  | inl e ↦
      rw e
        (All-insert s.key.rank r ss (stands_after-true r.key s.key e) h.0, insert-ByRank r ss h.1)
  | inr e ↦
      let low = stands_after-false r.key s.key e in
      rw e ((low, All-weaken r.key.rank s.key.rank ss low h.0), h)
]

sorted-ByRank : (rs : List Ranked) → ByRank (sorted rs)
sorted-ByRank [] = tt
sorted-ByRank (r ∷ rs) = insert-ByRank r (sorted rs) (sorted-ByRank rs)

count-insert :
    (p : Ranked → Bool) (r : Ranked) (rs : List Ranked) → count p (insert r rs) ≡ count p (r ∷ rs)
count-insert p r [] = refl
count-insert p r (s ∷ ss) = ground (arith, count-insert p r ss)

pub count-sorted : (p : Ranked → Bool) (rs : List Ranked) → count p (sorted rs) ≡ count p rs
count-sorted p [] = refl
count-sorted p (r ∷ rs) = ground (arith, count-insert p r (sorted rs), count-sorted p rs)

All-insert-inv {κ} :
    (P : Ranked → Type κ) (r : Ranked) (rs : List Ranked) → All P (insert r rs) → P r × All P rs
All-insert-inv P r [] h = h
All-insert-inv P r (s ∷ ss) h = elim (Bool-cases (stands_after r.key s.key)) [
  | inl e ↦
      let both = rw e at h in let rest = All-insert-inv P r ss both.1 in (rest.0, (both.0, rest.1))
  | inr e ↦ rw e at h
]

All-sorted-inv {κ} : (P : Ranked → Type κ) (rs : List Ranked) → All P (sorted rs) → All P rs
All-sorted-inv P [] h = tt
All-sorted-inv P (r ∷ rs) h =
    let both = All-insert-inv P r (sorted rs) h in (both.0, All-sorted-inv P rs both.1)

-- Names are compared for equality.
has_key-same :
    (n : String) (r s : Ranked) → has_key n r ≡ true → has_key (ref_key r.first) s ≡ has_key n s
has_key-same n r s h = ground (arith, str_eq_iff (ref_key r.first) n)

any-same :
    (n : String) (r : Ranked) (t : List Ranked)
    → has_key n r ≡ true
    → any (has_key (ref_key r.first)) t ≡ any (has_key n) t
any-same n r [] h = refl
any-same n r (s ∷ ss) h = ground (arith, has_key-same n r s h, any-same n r ss h)

find-any : (p : Ranked → Bool) (t rs : List Ranked) → any p t ≡ true → find p (t ++ rs) ≡ find p t
find-any p [] rs h = absurd cc
find-any p (s ∷ ss) rs h = ground (arith, find-any p ss rs)

find-any-false :
    (p : Ranked → Bool) (t rs : List Ranked) → any p t ≡ false → find p (t ++ rs) ≡ find p rs
find-any-false p [] rs h = refl
find-any-false p (s ∷ ss) rs h = ground (arith, find-any-false p ss rs)

find-append_one :
    (p : Ranked → Bool) (t : List Ranked) (r : Ranked) (rs : List Ranked)
    → find p ((t ++ r ∷ []) ++ rs) ≡ find p (t ++ r ∷ rs)
find-append_one p [] r rs = refl
find-append_one p (s ∷ ss) r rs = ground (arith, find-append_one p ss r rs)

find-append_none : (p : Ranked → Bool) (t : List Ranked) → find p t ≡ find p (t ++ [])
find-append_none p [] = refl
find-append_none p (s ∷ ss) = ground (arith, find-append_none p ss)

-- A row of a name that is there already adds nothing.
find_again :
    (n : String) (r : Ranked) (t rs : List Ranked)
    → any (has_key (ref_key r.first)) t ≡ true
    → find (has_key n) (t ++ rs) ≡ find (has_key n) (t ++ r ∷ rs)
find_again n r t rs seen = elim (Bool-cases (any (has_key n) t)) [
  | inl e ↦ find-any (has_key n) t rs e ∙ sym (find-any (has_key n) t (r ∷ rs) e)
  | inr e ↦ elim (Bool-cases (has_key n r)) [
    | inl same ↦ absurd (cc (any-same n r t same, seen, e))
    | inr other ↦
        let skip : find (has_key n) (r ∷ rs) ≡ find (has_key n) rs = ground (arith, other) in
        find-any-false (has_key n) t rs e ∙ sym (find-any-false (has_key n) t (r ∷ rs) e ∙ skip)
  ]
]

-- The first row of a name stays the first.
find-setdefault :
    (n : String) (r : Ranked) (t rs : List Ranked)
    → find (has_key n) (setdefault r t ++ rs) ≡ find (has_key n) (t ++ r ∷ rs)
find-setdefault n r t rs = elim (Bool-cases (any (has_key (ref_key r.first)) t)) [
  | inl seen ↦ rw seen (find_again n r t rs seen)
  | inr new ↦ rw new (find-append_one (has_key n) t r rs)
]

find-collect :
    (n : String) (t rs : List Ranked) → find (has_key n) (collect t rs) ≡ find (has_key n) (t ++ rs)
find-collect n t [] = find-append_none (has_key n) t
find-collect n t (r ∷ rs) = find-collect n (setdefault r t) rs ∙ find-setdefault n r t rs

count-any : (p : Ranked → Bool) (t : List Ranked) → any p t ≡ false → count p t ≡ 0
count-any p [] h = refl
count-any p (s ∷ ss) h = ground (arith, count-any p ss)

count-setdefault :
    (n : String) (r : Ranked) (t : List Ranked)
    → count (has_key n) t ≤ 1
    → count (has_key n) (setdefault r t) ≤ 1
count-setdefault n r t h = elim (Bool-cases (any (has_key (ref_key r.first)) t)) [
  | inl seen ↦ rw seen h
  | inr new ↦ elim (Bool-cases (has_key n r)) [
    | inl same ↦
        let none_yet = count-any (has_key n) t (cc (any-same n r t same, new)) in
        rw new (ground (arith, none_yet, count-append (has_key n) t (r ∷ [])))
    | inr other ↦ rw new (ground (arith, h, other, count-append (has_key n) t (r ∷ [])))
  ]
]

count-collect :
    (n : String) (t rs : List Ranked)
    → count (has_key n) t ≤ 1
    → count (has_key n) (collect t rs) ≤ 1
count-collect n t [] h = h
count-collect n t (r ∷ rs) h = count-collect n (setdefault r t) rs (count-setdefault n r t h)

-- What stands for a name: a row of the name whose rank no row of the name undercuts.
pub record Best (n : String) (rs : List Ranked) (s : Ranked) : Type 0 where
  pub named : has_key n s ≡ true
  pub lowest : All (λ r. has_key n r ≡ true → s.key.rank ≤ r.key.rank) rs

named_later :
    (n : String) (m k : ℕ) (rs : List Ranked)
    → m ≤ k
    → All (λ t. k ≤ t.key.rank) rs
    → All (λ t. has_key n t ≡ true → m ≤ t.key.rank) rs
named_later n m k [] h hs = tt
named_later n m k (t ∷ ts) h hs = ((λ _. omega (arith, hs.0)), named_later n m k ts h hs.1)

find-ByRank :
    (n : String) (rs : List Ranked) {s : Ranked}
    → ByRank rs
    → find (has_key n) rs ≡ some s
    → All (λ r. has_key n r ≡ true → s.key.rank ≤ r.key.rank) rs
find-ByRank n [] h e = tt
find-ByRank n (r ∷ rs) {s} h e = elim (Bool-cases (has_key n r)) [
  | inl here ↦
      let same : r ≡ s = cc (rw here at e) in
      let low : s.key.rank ≤ r.key.rank = rw same (omega arith) in
      ((λ _. low), named_later n s.key.rank r.key.rank rs low h.0)
  | inr other ↦ ((λ k. absurd (cc (k, other))), find-ByRank n rs {s = s} h.1 (rw other at e))
]

find-unique :
    (n : String) (rs : List Ranked) → find (has_key n) (unique rs) ≡ find (has_key n) (sorted rs)
find-unique n rs = find-collect n [] (sorted rs)

any-count : (p : Ranked → Bool) (t : List Ranked) → any p t ≡ true → 0 < count p t
any-count p [] h = absurd (cc (h))
any-count p (s ∷ ss) h = ground (arith, any-count p ss)

-- For a first reference that some ranked candidate has: unique keeps exactly one candidate with
-- it, and no candidate with it has a lower rank than the one kept.
pub unique-Best :
    (n : String) (rs : List Ranked)
    → any (has_key n) rs ≡ true
    → ((s : Ranked) × (find (has_key n) (unique rs) ≡ some s) × Best n rs s)
      × (count (has_key n) (unique rs) ≡ 1)
unique-Best n rs some_named = elim (Option-cases (find (has_key n) (unique rs))) [
  | inl none_found ↦
      let none_sorted = find-none (has_key n) (sorted rs) (sym (find-unique n rs) ∙ none_found) in
      absurd (
        omega
          (arith, any-count (has_key n) rs some_named, none_sorted, count-sorted (has_key n) rs))
  | inr (s, e) ↦
      let first = sym (find-unique n rs) ∙ e in
      let low = find-ByRank n (sorted rs) {s = s} (sorted-ByRank rs) first in
      (
        (
          s,
          e,
          record {
            named = find-eq-some (has_key n) (sorted rs) {r = s} first;
            lowest = All-sorted-inv (λ r. has_key n r ≡ true → s.key.rank ≤ r.key.rank) rs low;
          },
        ),
        omega (
          arith,
          count-collect n [] (sorted rs) (omega arith),
          count-pos (has_key n) (unique rs) {r = s} e,
        ),
      )
]
