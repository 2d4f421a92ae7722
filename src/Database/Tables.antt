-- ===== src/Database/Tables.antt =====
-- Lemmas on tables with a primary key.
use android_system_iorap.Prelude.{
  ℕ, ◌≡◌, ◌<◌, refl, ap, subst, ◌==◌, Bool, true, false, ◌||◌, List, [], ◌∷◌, ◌++◌, none, some,
  arith, if◌then◌else◌, if_true, if_false, Bool-cases, inl, inr, All, All-append,
}
use android_system_iorap.Launch.State.{has_value}
use android_system_iorap.Database.{select_where, select_once, delete_where, has_id, next_id}

module _ {ℓ} {A : Type ℓ} where
  pub All-imp {κ μ} :
      (P : A → Type κ) (Q : A → Type μ) (rows : List A)
      → ((r : A) → P r → Q r)
      → All P rows
      → All Q rows
  All-imp P Q [] f a = tt
  All-imp P Q (r ∷ rows) f (a, later) = (f r a, All-imp P Q rows f later)

  pub All-delete_where {κ} :
      (P : A → Type κ) (p : A → Bool) (rows : List A) → All P rows → All P (delete_where p rows)
  All-delete_where P p [] a = tt
  All-delete_where P p (r ∷ rows) (a, later) = elim (Bool-cases (p r)) [
    | inl gone ↦ rw (if_true gone) (All-delete_where P p rows later)
    | inr stays ↦ rw (if_false stays) (a, All-delete_where P p rows later)
  ]

  -- What holds of the rows that stay, with the test.
  pub All-kept {κ μ} :
      (P : A → Type κ) (Q : A → Type μ) (p : A → Bool) (rows : List A)
      → ((r : A) → p r ≡ false → P r → Q r)
      → All P rows
      → All Q (delete_where p rows)
  All-kept P Q p [] f a = tt
  All-kept P Q p (r ∷ rows) f (a, later) = elim (Bool-cases (p r)) [
    | inl gone ↦ rw (if_true gone) (All-kept P Q p rows f later)
    | inr stays ↦ rw (if_false stays) (f r stays a, All-kept P Q p rows f later)
  ]

  pub select_once-holds :
      (p : A → Bool) (rows : List A) (r : A) → select_once p rows ≡ some r → p r ≡ true
  select_once-holds p [] r h = absurd (ground arith)
  select_once-holds p (x ∷ rows) r h = ground (arith, select_once-holds p rows r)

  pub select_once-append :
      (p : A → Bool) (rows : List A) (r : A)
      → select_once p rows ≡ none
      → p r ≡ true
      → select_once p (rows ++ r ∷ []) ≡ some r
  select_once-append p [] r h y = ground arith
  select_once-append p (x ∷ rows) r h y = ground (arith, select_once-append p rows r)

  pub select_once-All {κ} :
      (P : A → Type κ) (p : A → Bool) (rows : List A) (r : A)
      → All P rows
      → select_once p rows ≡ some r
      → P r
  select_once-All P p [] r a h = absurd (ground arith)
  select_once-All P p (x ∷ rows) r (a, later) h = elim (Bool-cases (p x)) [
    | inl here ↦ subst P (ground arith) a
    | inr there ↦ select_once-All P p rows r later (ground arith)
  ]

  pub select_once-more :
      (p : A → Bool) (rows more : List A)
      → has_value (select_once p rows) ≡ true
      → has_value (select_once p (rows ++ more)) ≡ true
  select_once-more p [] more h = absurd (ground arith)
  select_once-more p (x ∷ rows) more h = ground (arith, select_once-more p rows more)

  pub select_once-last :
      (p : A → Bool) (rows : List A) (r : A)
      → p r ≡ true
      → has_value (select_once p (rows ++ r ∷ [])) ≡ true
  select_once-last p [] r h = ground arith
  select_once-last p (x ∷ rows) r h = ground (arith, select_once-last p rows r)

  module _ (id : A → ℕ) where
    -- The ids ascend.
    abbrev pub IsKeyed : List A → Type 0
    IsKeyed [] = Unit
    IsKeyed (r ∷ rows) = All (λ y. id r < id y) rows × IsKeyed rows

    pub greatest_id-bounds : (rows : List A) → All (λ r. id r < next_id id rows) rows
    greatest_id-bounds [] = tt
    greatest_id-bounds (r ∷ rows) = (
      ground arith,
      All-imp (λ x. id x < next_id id rows) (λ x. id x < next_id id (r ∷ rows)) rows
          (λ x h. ground arith) (greatest_id-bounds rows),
    )

    pub append-IsKeyed :
        (rows : List A) (r : A)
        → IsKeyed rows
        → All (λ x. id x < id r) rows
        → IsKeyed (rows ++ r ∷ [])
    append-IsKeyed [] r k a = (tt, tt)
    append-IsKeyed (x ∷ rows) r (above, later) (a, as_) =
        (All-append _ rows (r ∷ []) above (a, tt), append-IsKeyed rows r later as_)

    pub delete_where-IsKeyed :
        (p : A → Bool) (rows : List A) → IsKeyed rows → IsKeyed (delete_where p rows)
    delete_where-IsKeyed p [] k = tt
    delete_where-IsKeyed p (r ∷ rows) (above, later) = elim (Bool-cases (p r)) [
      | inl gone ↦ rw (if_true gone) (delete_where-IsKeyed p rows later)
      | inr stays ↦
          rw (if_false stays) (All-delete_where _ p rows above, delete_where-IsKeyed p rows later)
    ]

    pub has_id-append :
        (i : ℕ) (rows more : List A)
        → has_id id i (rows ++ more) ≡ (has_id id i rows || has_id id i more)
    has_id-append i [] more = refl
    has_id-append i (r ∷ rows) more = ground (arith, has_id-append i rows more)

    -- A row is deleted or stays.
    pub has_id-delete_where :
        (i : ℕ) (p : A → Bool) (rows : List A)
        → has_id id i rows ≡ true
        → has_id id i (select_where p rows) ≡ false
        → has_id id i (delete_where p rows) ≡ true
    has_id-delete_where i p [] h n = absurd (ground arith)
    has_id-delete_where i p (r ∷ rows) h n = ground (arith, has_id-delete_where i p rows)

    -- A row of another id stays.
    pub has_id-delete_id :
        (i j : ℕ) (rows : List A)
        → has_id id i rows ≡ true
        → (i == j) ≡ false
        → has_id id i (delete_where (λ r. id r == j) rows) ≡ true
    has_id-delete_id i j [] h n = absurd (ground arith)
    has_id-delete_id i j (r ∷ rows) h n = ground (arith, has_id-delete_id i j rows)

    pub select_once-has_id :
        (p : A → Bool) (rows : List A) (r : A)
        → select_once p rows ≡ some r
        → has_id id (id r) rows ≡ true
    select_once-has_id p [] r h = absurd (ground arith)
    select_once-has_id p (x ∷ rows) r h = ground (arith, select_once-has_id p rows r)

    -- The rows that satisfy a test are deleted one by one by their ids.
    abbrev pub delete_each : (A → Bool) → List A → List A → List A
    delete_each p [] rows = rows
    delete_each p (x ∷ xs) rows =
        delete_each p xs (if p x then delete_where (λ r. id r == id x) rows else rows)

    delete_each-cons :
        (p : A → Bool) (xs rows : List A) (r : A)
        → All (λ x. id r < id x) xs
        → delete_each p xs (r ∷ rows) ≡ r ∷ delete_each p xs rows
    delete_each-cons p [] rows r a = refl
    delete_each-cons p (x ∷ xs) rows r (a, later) =
        let differs : (id r == id x) ≡ false = ground arith in
        elim (Bool-cases (p x)) [
          | inl gone ↦ rw (gone, differs) (delete_each-cons p xs _ r later)
          | inr stays ↦ rw stays (delete_each-cons p xs rows r later)
        ]

    delete_where_above :
        (i : ℕ) (rows : List A)
        → All (λ y. i < id y) rows
        → delete_where (λ r. id r == i) rows ≡ rows
    delete_where_above i [] a = refl
    delete_where_above i (r ∷ rows) (a, later) =
        let differs : (id r == i) ≡ false = ground arith in
        rw (differs, delete_where_above i rows later) refl

    pub delete_each_self :
        (p : A → Bool) (rows : List A)
        → IsKeyed rows
        → delete_each p rows rows ≡ delete_where p rows
    delete_each_self p [] k = refl
    delete_each_self p (r ∷ rows) (above, later) = elim (Bool-cases (p r)) [
      | inl gone ↦
          let same : (id r == id r) ≡ true = ground arith in
          rw (gone, same, delete_where_above (id r) rows above) (delete_each_self p rows later)
      | inr stays ↦
          rw (stays, delete_each-cons p rows rows r above)
            (ap (λ l. r ∷ l) (delete_each_self p rows later))
    ]

    -- A selected row is that of its id.
    pub select_once-id :
        (p : A → Bool) (rows : List A) (r : A)
        → IsKeyed rows
        → select_once p rows ≡ some r
        → select_once (λ x. id x == id r) rows ≡ some r
    select_once-id p [] r k h = absurd (ground arith)
    select_once-id p (x ∷ rows) r (above, later) h = elim (Bool-cases (p x)) [
      | inl here ↦
          let e : x ≡ r = ground arith in
          let same : (id x == id r) ≡ true = ground arith in rw same (ap some e)
      | inr there ↦
          let h' : select_once p rows ≡ some r = ground arith in
          let less : id x < id r = select_once-All (λ y. id x < id y) p rows r above h' in
          let differs : (id x == id r) ≡ false = ground arith in
          rw differs (select_once-id p rows r later h')
    ]
