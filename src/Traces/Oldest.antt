-- ===== src/Traces/Oldest.antt =====
-- What DeleteOlderFiles of src/db/file_models.cc leaves of the raw traces.
use android_system_iorap.Prelude.{
  ℕ, zero, suc, ◌≡◌, refl, sym, ◌∙◌, ap, ◌<◌, ◌-◌, ◌==◌, ltb, Bool, true, false, not, List, [], ◌∷◌,
  ◌++◌, arith, if◌then◌else◌, if_true, if_false, Bool-cases, inl, inr, Text, All, length, take,
  drop, map, append_assoc, append-nil,
}
use android_system_iorap.Traces.{
  RawTraceModel, TraceStore, select_traces, delete_row, delete_trace, delete_first, items_to_delete,
  delete_older_files,
}

-- The ids ascend.
abbrev pub IsAscending : List RawTraceModel → Type 0
IsAscending [] = Unit
IsAscending (r ∷ rows) = All (λ y. r.id < y.id) rows × IsAscending rows

-- The rows of which the file could not be removed.
abbrev pub unremoved : (Text → Bool) → List RawTraceModel → List RawTraceModel
unremoved remove_file [] = []
unremoved remove_file (r ∷ rows) =
    if remove_file r.file_path then unremoved remove_file rows else r ∷ unremoved remove_file rows

-- The loop's effect on a table.
abbrev without : (Text → Bool) → ℕ → List RawTraceModel → List RawTraceModel → List RawTraceModel
without f zero rows t = t
without f (suc n) [] t = t
without f (suc n) (r ∷ rows) t = without f n rows (if f r.file_path then delete_row r.id t else t)

abbrev Apart : ℕ → List RawTraceModel → Type 0
Apart id rows = All (λ y. (y.id == id) ≡ false) rows

select-delete_row :
    (b : ℕ → Bool) (i : ℕ) (t : List RawTraceModel)
    → select_traces b (delete_row i t) ≡ delete_row i (select_traces b t)
unfolding select_traces delete_row
select-delete_row b i [] = refl
select-delete_row b i (r ∷ t) = elim (Bool-cases (r.id == i)) [
  | inl same ↦ elim (Bool-cases (b r.history_id)) [
    | inl mine ↦ rw (same, mine, same, select-delete_row b i t)
    | inr other ↦ rw (same, other, select-delete_row b i t)
  ]
  | inr differs ↦ elim (Bool-cases (b r.history_id)) [
    | inl mine ↦ rw (differs, mine, differs, select-delete_row b i t)
    | inr other ↦ rw (differs, other, select-delete_row b i t)
  ]
]

select-if :
    (b : ℕ → Bool) (c : Bool) (i : ℕ) (t : List RawTraceModel)
    → select_traces b (if c then delete_row i t else t)
      ≡ (if c then delete_row i (select_traces b t) else select_traces b t)
select-if b true i t = select-delete_row b i t
select-if b false i t = refl

select-delete_first :
    (b : ℕ → Bool) (f : Text → Bool) (n : ℕ) (rows : List RawTraceModel) (s : TraceStore)
    → select_traces b (delete_first f n rows s).raw_traces
      ≡ without f n rows (select_traces b s.raw_traces)
unfolding delete_first
select-delete_first b f zero rows s = refl
select-delete_first b f (suc n) [] s = refl
select-delete_first b f (suc n) (r ∷ rows) s =
    select-delete_first b f n rows (delete_trace f r s)
    ∙ ap (without f n rows) (select-if b (f r.file_path) r.id s.raw_traces)

delete_row-Apart : (i : ℕ) (t : List RawTraceModel) → Apart i t → delete_row i t ≡ t
unfolding delete_row
delete_row-Apart i [] a = refl
delete_row-Apart i (r ∷ t) (a, later) = rw (a, delete_row-Apart i t later)

-- Rows that are not in the table change nothing.
without-Apart :
    (f : Text → Bool) (n : ℕ) (rows t : List RawTraceModel)
    → All (λ x. Apart x.id t) rows
    → without f n rows t ≡ t
without-Apart f zero rows t a = refl
without-Apart f (suc n) [] t a = refl
without-Apart f (suc n) (r ∷ rows) t (a, later) = elim (Bool-cases (f r.file_path)) [
  | inl gone ↦ rw (if_true gone, delete_row-Apart r.id t a) (without-Apart f n rows t later)
  | inr stays ↦ rw (if_false stays) (without-Apart f n rows t later)
]

-- The oldest row stays if none of the rows is it.
without-cons :
    (f : Text → Bool) (n : ℕ) (rows t : List RawTraceModel) (x : RawTraceModel)
    → All (λ y. x.id < y.id) rows
    → without f n rows (x ∷ t) ≡ x ∷ without f n rows t
unfolding delete_row
without-cons f zero rows t x a = refl
without-cons f (suc n) [] t x a = refl
without-cons f (suc n) (r ∷ rows) t x (a, later) =
    let differs : (x.id == r.id) ≡ false = ground arith in
    elim (Bool-cases (f r.file_path)) [
      | inl gone ↦ rw (gone, differs) (without-cons f n rows (delete_row r.id t) x later)
      | inr stays ↦ rw stays (without-cons f n rows t x later)
    ]

above-Apart : (i : ℕ) (t : List RawTraceModel) → All (λ y. i < y.id) t → Apart i t
above-Apart i [] a = tt
above-Apart i (r ∷ t) (a, later) = (ground arith, above-Apart i t later)

without_self :
    (f : Text → Bool) (n : ℕ) (rows : List RawTraceModel)
    → IsAscending rows
    → without f n rows rows ≡ unremoved f (take n rows) ++ drop n rows
unfolding delete_row
without_self f zero rows a = refl
without_self f (suc n) [] a = refl
without_self f (suc n) (r ∷ rows) (a, later) = elim (Bool-cases (f r.file_path)) [
  | inl gone ↦
      let same : (r.id == r.id) ≡ true = ground arith in
      rw (gone, same, delete_row-Apart r.id rows (above-Apart r.id rows a))
        (without_self f n rows later)
  | inr stays ↦
      rw (stays, without-cons f n rows rows r a) (ap (λ t. r ∷ t) (without_self f n rows later))
]

select-above :
    (b : ℕ → Bool) (i : ℕ) (t : List RawTraceModel)
    → All (λ y. i < y.id) t
    → All (λ y. i < y.id) (select_traces b t)
unfolding select_traces
select-above b i [] a = tt
select-above b i (r ∷ t) (a, later) = elim (Bool-cases (b r.history_id)) [
  | inl mine ↦ rw (if_true mine) (a, select-above b i t later)
  | inr other ↦ rw (if_false other) (select-above b i t later)
]

select-IsAscending :
    (b : ℕ → Bool) (t : List RawTraceModel) → IsAscending t → IsAscending (select_traces b t)
unfolding select_traces
select-IsAscending b [] a = tt
select-IsAscending b (r ∷ t) (a, later) = elim (Bool-cases (b r.history_id)) [
  | inl mine ↦ rw (if_true mine) (select-above b r.id t a, select-IsAscending b t later)
  | inr other ↦ rw (if_false other) (select-IsAscending b t later)
]

cons-Apart :
    (r : RawTraceModel) (xs u : List RawTraceModel)
    → All (λ x. r.id < x.id) xs
    → All (λ x. Apart x.id u) xs
    → All (λ x. Apart x.id (r ∷ u)) xs
cons-Apart r [] u a p = tt
cons-Apart r (x ∷ xs) u (a, later) (p, ps) = ((ground arith, p), cons-Apart r xs u later ps)

-- The rows of the component are not among the others.
others-Apart :
    (b : ℕ → Bool) (t : List RawTraceModel)
    → IsAscending t
    → All (λ x. Apart x.id (select_traces (λ h. not (b h)) t)) (select_traces b t)
unfolding select_traces
others-Apart b [] a = tt
others-Apart b (r ∷ t) (a, later) =
    let rest = select_traces (λ h. not (b h)) t in
    elim (Bool-cases (b r.history_id)) [
      | inl mine ↦
          rw mine
            (above-Apart r.id rest (select-above (λ h. not (b h)) r.id t a), others-Apart b t later)
      | inr other ↦
          rw other (
            cons-Apart r (select_traces b t) rest (select-above b r.id t a)
              (others-Apart b t later))
    ]

delete_first-asked :
    (f : Text → Bool) (n : ℕ) (rows : List RawTraceModel) (s : TraceStore)
    → (delete_first f n rows s).asked ≡ s.asked ++ map (λ r. r.file_path) (take n rows)
unfolding delete_first
delete_first-asked f zero rows s = sym (append-nil s.asked)
delete_first-asked f (suc n) [] s = sym (append-nil s.asked)
delete_first-asked f (suc n) (r ∷ rows) s =
    delete_first-asked f n rows (delete_trace f r s)
    ∙ append_assoc s.asked (r.file_path ∷ []) (map (λ x. x.file_path) (take n rows))

surplus : (m n : ℕ) → items_to_delete m n ≡ n - m
surplus m n = elim (Bool-cases (ltb m n)) [
  | inl more ↦ rw (if_true more)
  | inr fits ↦ rw (if_false fits) (ground arith)
]

-- Where the rows stand in the order of ascending ids and the component has n traces, with at most
-- max_traces to be kept, DeleteOlderFiles asks for the removal of the n - max_traces oldest files
-- of the component, in order; of its rows it leaves the newest ones and those old ones of which the
-- file could not be removed; and it leaves all rows of other components.
pub delete_older_files-newest :
    (max_traces : ℕ) (remove_file : Text → Bool) (of_component : ℕ → Bool) (s : TraceStore)
    → IsAscending s.raw_traces
    → let s' = delete_older_files max_traces remove_file of_component s in
      let selected = select_traces of_component s.raw_traces in
      let surplus = length selected - max_traces in
      (s'.asked ≡ s.asked ++ map (λ r. r.file_path) (take surplus selected))
      × (select_traces of_component s'.raw_traces
          ≡ unremoved remove_file (take surplus selected) ++ drop surplus selected)
      × (select_traces (λ h. not (of_component h)) s'.raw_traces
          ≡ select_traces (λ h. not (of_component h)) s.raw_traces)
unfolding delete_older_files
delete_older_files-newest m f b s a =
    let selected = select_traces b s.raw_traces in
    let n = length selected - m in
    rw (surplus m (length selected)) (
      delete_first-asked f n selected s,
      select-delete_first b f n selected s
          ∙ without_self f n selected (select-IsAscending b s.raw_traces a),
      select-delete_first (λ h. not (b h)) f n selected s
          ∙ without-Apart f n selected (select_traces (λ h. not (b h)) s.raw_traces)
              (others-Apart b s.raw_traces a),
    )
