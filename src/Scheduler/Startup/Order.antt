-- ===== src/Scheduler/Startup/Order.antt =====
-- `materialized_windows`: the windows of a job, and only those, the earliest first.
use signal_observatory.Prelude.{
  ℕ, ◌≤◌, ◌≡◌, refl, ◌∙◌, inl, inr, Bool, true, not, ◌&&◌, ◌||◌, List, [], ◌∷◌, map, String, exists,
  select, arith, Bool-cases, ◌==◌,
}
use signal_observatory.Scheduler.Row.{Row, Table, same_window}
use signal_observatory.Scheduler.Ledger.{
  insert_row, order_rows, of_job, unique, materialized_windows,
}
use signal_observatory.Scheduler.Startup.{is_known}

abbrev times : List Row → List ℕ
times rows = map (λ r. r.scheduled_at) rows

abbrev pub NonDecreasing : ℕ → List ℕ → Type 0
NonDecreasing lo [] = Unit
NonDecreasing lo (t ∷ ts) = (lo ≤ t) × NonDecreasing t ts

insert_row-NonDecreasing :
    (lo : ℕ) (r : Row) (rows : List Row)
    → lo ≤ r.scheduled_at
    → NonDecreasing lo (times rows)
    → NonDecreasing lo (times (insert_row r rows))
unfolding insert_row
insert_row-NonDecreasing lo r [] h k = (h, tt)
insert_row-NonDecreasing lo r (s ∷ rows) h k =
    ground (arith, insert_row-NonDecreasing s.scheduled_at r rows)

order_rows-NonDecreasing : (rows : List Row) → NonDecreasing 0 (times (order_rows rows))
unfolding order_rows
order_rows-NonDecreasing [] = tt
order_rows-NonDecreasing (r ∷ rows) =
    insert_row-NonDecreasing 0 r (order_rows rows) (omega arith) (order_rows-NonDecreasing rows)

NonDecreasing-weaken :
    (lo mid : ℕ) (ts : List ℕ) → lo ≤ mid → NonDecreasing mid ts → NonDecreasing lo ts
NonDecreasing-weaken lo mid [] h k = tt
NonDecreasing-weaken lo mid (t ∷ ts) h k = (omega arith, k.1)

select-NonDecreasing :
    (p : ℕ → Bool) (lo : ℕ) (ts : List ℕ) → NonDecreasing lo ts → NonDecreasing lo (select p ts)
select-NonDecreasing p lo [] h = tt
select-NonDecreasing p lo (t ∷ ts) h = elim (Bool-cases (p t)) [
  | inl e ↦ rw e (h.0, select-NonDecreasing p t ts h.1)
  | inr e ↦ rw e (NonDecreasing-weaken lo t (select p ts) h.0 (select-NonDecreasing p t ts h.1))
]

unique-NonDecreasing : (lo : ℕ) (ts : List ℕ) → NonDecreasing lo ts → NonDecreasing lo (unique ts)
unique-NonDecreasing lo [] h = tt
unique-NonDecreasing lo (t ∷ ts) h =
    (h.0, select-NonDecreasing (λ u. not (u == t)) t (unique ts) (unique-NonDecreasing t ts h.1))

known_ge : (w lo : ℕ) (ts : List ℕ) → NonDecreasing lo ts → is_known w ts ≡ true → lo ≤ w
known_ge w lo [] h k = cc
known_ge w lo (t ∷ ts) h k = ground (arith, known_ge w t ts)

module _ (w : ℕ) where
  known-insert_row :
      (r : Row) (rows : List Row)
      → is_known w (times (insert_row r rows)) ≡ (r.scheduled_at == w || is_known w (times rows))
  unfolding insert_row
  known-insert_row r [] = refl
  known-insert_row r (s ∷ rows) = ground (arith, known-insert_row r rows)

  known-order_rows :
      (rows : List Row) → is_known w (times (order_rows rows)) ≡ is_known w (times rows)
  unfolding order_rows
  known-order_rows [] = refl
  known-order_rows (r ∷ rows) = rw (known-insert_row r (order_rows rows), known-order_rows rows)

  known-select :
      (t : ℕ) (ts : List ℕ)
      → is_known w (select (λ u. not (u == t)) ts) ≡ (not (t == w) && is_known w ts)
  known-select t [] = ground arith
  known-select t (u ∷ ts) = ground (arith, known-select t ts)

  known-unique : (ts : List ℕ) → is_known w (unique ts) ≡ is_known w ts
  known-unique [] = refl
  known-unique (t ∷ ts) = ground (arith, known-select t (unique ts), known-unique ts)

  known-times :
      (job : String) (t : Table)
      → is_known w (times (select (of_job job) t)) ≡ exists (same_window job w) t
  known-times job [] = refl
  known-times job (r ∷ t) = ground (arith, known-times job t)

  -- A window is materialized exactly if the table has a row for it.
  pub known-materialized_windows :
      (job : String) (t : Table)
      → is_known w (materialized_windows t job) ≡ exists (same_window job w) t
  unfolding materialized_windows
  known-materialized_windows job t =
      known-unique (times (order_rows (select (of_job job) t)))
      ∙ known-order_rows (select (of_job job) t)
      ∙ known-times job t

pub materialized_windows-NonDecreasing :
    (job : String) (t : Table) → NonDecreasing 0 (materialized_windows t job)
unfolding materialized_windows
materialized_windows-NonDecreasing job t =
    unique-NonDecreasing 0 (times (order_rows (select (of_job job) t)))
      (order_rows-NonDecreasing (select (of_job job) t))

-- The first materialized window is the earliest.
pub first_le :
    (w first : ℕ) (rest : List ℕ)
    → NonDecreasing 0 (first ∷ rest)
    → is_known w (first ∷ rest) ≡ true
    → first ≤ w
first_le w first rest h k = ground (arith, known_ge w first rest)
