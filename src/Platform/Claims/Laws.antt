-- ===== src/Platform/Claims/Laws.antt =====
-- A claim takes only rows that meet its condition, and what the statements make of one row.
use test_task_autumn.Prelude.{
  ℕ, zero, suc, String, ◌≡◌, refl, sym, ap, ◌∙◌, inl, inr, Bool, true, false, ◌||◌, none, some,
  List, [], ◌∷◌, map, arith, eq_iff, if◌then◌else◌, ◌==◌, nat_eq, string_eq, Bool-cases, take,
  keep_if, contains,
}
use test_task_autumn.Platform.Claims.{
  ids, find, IsKeyed, insert_row, sort_rows, selected, claim, update_where,
}

module _ {A : Type 0} (id : A → String) where
  pub find-map :
      (f : A → A) (i : String) (rows : List A)
      → ((r : A) → id (f r) ≡ id r)
      → find id i (map f rows) ≡ elim (find id i rows) [ none ↦ none | some r ↦ some (f r) ]
  unfolding find
  find-map f i [] keep = refl
  find-map f i (r ∷ rs) keep = rw (keep r) (elim (Bool-cases (id r == i)) [
    | inl hit ↦ rw hit
    | inr miss ↦ rw miss (find-map f i rs keep)
  ])

  ids-map :
      (f : A → A) (rows : List A) → ((r : A) → id (f r) ≡ id r) → ids id (map f rows) ≡ ids id rows
  ids-map f [] keep = refl
  ids-map f (r ∷ rs) keep = rw (keep r, ids-map f rs keep)

  pub IsKeyed-map :
      (f : A → A) (rows : List A)
      → ((r : A) → id (f r) ≡ id r)
      → IsKeyed id rows
      → IsKeyed id (map f rows)
  IsKeyed-map f [] keep k = tt
  IsKeyed-map f (r ∷ rs) keep k = (rw (keep r, ids-map f rs keep) k.0, IsKeyed-map f rs keep k.1)

  contains_kept :
      (test : A → Bool) (i : String) (rows : List A)
      → contains (ids id (keep_if test rows)) i ≡ true
      → contains (ids id rows) i ≡ true
  contains_kept test i [] h = h
  contains_kept test i (r ∷ rs) h = ground (arith, contains_kept test i rs)

  -- Of the kept rows, the one with an id is the one of the table.
  find_kept :
      (test : A → Bool) (i : String) (rows : List A)
      → IsKeyed id rows
      → contains (ids id (keep_if test rows)) i ≡ true
      → (r : A) × (find id i rows ≡ some r) × (test r ≡ true)
  unfolding find
  find_kept test i [] k h = cc
  find_kept test i (r ∷ rs) k h = elim (Bool-cases (id r == i)) [
    | inl hit ↦ (r, rw hit, ground (arith, eq_iff (id r) i, contains_kept test i rs))
    | inr miss ↦
        let (x, found, passes) = find_kept test i rs k.1 (ground arith) in
        (x, rw miss found, passes)
  ]

  module _ (before : A → A → Bool) where
    contains_inserted :
        (r : A) (i : String) (rows : List A)
        → contains (ids id (insert_row id before r rows)) i
          ≡ (id r == i || contains (ids id rows) i)
    unfolding insert_row
    contains_inserted r i [] = refl
    contains_inserted r i (s ∷ ss) = ground (arith, contains_inserted r i ss)

    contains_sorted :
        (i : String) (rows : List A)
        → contains (ids id (sort_rows id before rows)) i ≡ contains (ids id rows) i
    unfolding sort_rows
    contains_sorted i [] = refl
    contains_sorted i (r ∷ rs) =
        contains_inserted r i (sort_rows id before rs)
        ∙ ap (λ b. id r == i || b) (contains_sorted i rs)

    contains_taken :
        (n : ℕ) (i : String) (rows : List A)
        → contains (ids id (take n rows)) i ≡ true
        → contains (ids id rows) i ≡ true
    contains_taken zero i rows h = cc
    contains_taken (suc n) i [] h = h
    contains_taken (suc n) i (r ∷ rs) h = ground (arith, contains_taken n i rs)

    -- What is selected stands in the table and meets the condition.
    pub selected_meets :
        (test : A → Bool) (limit : ℕ) (i : String) (rows : List A)
        → IsKeyed id rows
        → contains (selected id before test limit rows) i ≡ true
        → (r : A) × (find id i rows ≡ some r) × (test r ≡ true)
    unfolding selected
    selected_meets test limit i rows k h = find_kept test i rows k (
        sym (contains_sorted i (keep_if test rows))
        ∙ contains_taken limit i (sort_rows id before (keep_if test rows)) h)

    claim_keeps_id :
        (chosen : List String) (lock : A → A) (r : A)
        → ((x : A) → id (lock x) ≡ id x)
        → id (if contains chosen (id r) then lock r else r) ≡ id r
    claim_keeps_id chosen lock r keep = elim (Bool-cases (contains chosen (id r))) [
      | inl e ↦ rw e (keep r)
      | inr e ↦ rw e
    ]

    pub claim-IsKeyed :
        (test : A → Bool) (lock : A → A) (limit : ℕ) (rows : List A)
        → ((x : A) → id (lock x) ≡ id x)
        → IsKeyed id rows
        → IsKeyed id (claim id before test lock limit rows)
    unfolding claim
    claim-IsKeyed test lock limit rows keep k =
        IsKeyed-map _ rows (λ r. claim_keeps_id (selected id before test limit rows) lock r keep) k

    pub find_id : (i : String) (rows : List A) (r : A) → find id i rows ≡ some r → id r ≡ i
    unfolding find
    find_id i [] r h = cc
    find_id i (x ∷ xs) r h = ground (arith, eq_iff (id x) i, find_id i xs r)

    pub find_claimed :
        (test : A → Bool) (lock : A → A) (limit : ℕ) (i : String) (rows : List A) (r : A)
        → ((x : A) → id (lock x) ≡ id x)
        → contains (selected id before test limit rows) i ≡ true
        → find id i rows ≡ some r
        → find id i (claim id before test lock limit rows) ≡ some (lock r)
    unfolding claim
    find_claimed test lock limit i rows r keep chosen found =
        let e =
          find-map (λ x. if contains (selected id before test limit rows) (id x) then lock x else x)
            i rows (λ x. claim_keeps_id (selected id before test limit rows) lock x keep) in
        let same : contains (selected id before test limit rows) (id r) ≡ true =
          rw (find_id i rows r found) chosen in
        e ∙ rw (found, same)

    -- A row that does not meet the condition of a claim is not selected.
    pub not_selected :
        (test : A → Bool) (limit : ℕ) (i : String) (rows : List A) (r : A)
        → IsKeyed id rows
        → find id i rows ≡ some r
        → test r ≡ false
        → contains (selected id before test limit rows) i ≡ false
    not_selected test limit i rows r k found closed =
        elim (Bool-cases (contains (selected id before test limit rows) i)) [
          | inr e ↦ e
          | inl chosen ↦
              let (x, found', passes) = selected_meets test limit i rows k chosen in
              absurd (ground arith)
        ]

    -- and the claim leaves it as it is.
    pub find_passed :
        (test : A → Bool) (lock : A → A) (limit : ℕ) (i : String) (rows : List A) (r : A)
        → ((x : A) → id (lock x) ≡ id x)
        → IsKeyed id rows
        → find id i rows ≡ some r
        → test r ≡ false
        → find id i (claim id before test lock limit rows) ≡ some r
    unfolding claim
    find_passed test lock limit i rows r keep k found closed =
        let e =
          find-map (λ x. if contains (selected id before test limit rows) (id x) then lock x else x)
            i rows (λ x. claim_keeps_id (selected id before test limit rows) lock x keep) in
        let other : contains (selected id before test limit rows) (id r) ≡ false =
          rw (find_id i rows r found) (not_selected test limit i rows r k found closed) in
        e ∙ rw (found, other)

  update_keeps_id :
      (test : A → Bool) (change : A → A) (r : A)
      → ((x : A) → id (change x) ≡ id x)
      → id (if test r then change r else r) ≡ id r
  update_keeps_id test change r keep = elim (Bool-cases (test r)) [
    | inl e ↦ rw e (keep r)
    | inr e ↦ rw e
  ]

  pub update_where-IsKeyed :
      (test : A → Bool) (change : A → A) (rows : List A)
      → ((x : A) → id (change x) ≡ id x)
      → IsKeyed id rows
      → IsKeyed id (update_where id test change rows)
  unfolding update_where
  update_where-IsKeyed test change rows keep k =
      IsKeyed-map _ rows (λ r. update_keeps_id test change r keep) k

  pub find_updated :
      (test : A → Bool) (change : A → A) (i : String) (rows : List A) (r : A)
      → ((x : A) → id (change x) ≡ id x)
      → find id i rows ≡ some r
      → find id i (update_where id test change rows) ≡ some (if test r then change r else r)
  unfolding update_where
  find_updated test change i rows r keep found =
      find-map (λ x. if test x then change x else x) i rows
        (λ x. update_keeps_id test change x keep)
      ∙ rw found
