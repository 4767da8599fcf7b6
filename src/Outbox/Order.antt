-- ===== src/Outbox/Order.antt =====
-- The order in which the outbox store claims.
use seta_im_intern.Prelude.{
  ℕ, ◌≤◌, ◌⊎◌, ap, length, zero, suc, ◌≡◌, refl, sym, subst, Bool, Bool-cases, true, false, not,
  List, [], ◌∷◌, ◌++◌, All, take, drop, take-append-drop, filter, inl, inr, arith, ◌&&◌,
}
use seta_im_intern.Media.{OutboxRow}
use seta_im_intern.Outbox.Store.{is_before, insert_ordered, order_rows, is_due, selected}
use mathlib.Core.List.{Perm}
use mathlib.Core.List.Perm

-- The first row goes before the rest.
abbrev pub Leads : OutboxRow → List OutboxRow → Type 0
Leads a rows = All (λ b. is_before a b ≡ true) rows

abbrev IsOrdered : List OutboxRow → Type 0
IsOrdered [] = Unit
IsOrdered (a ∷ rows) = Leads a rows × IsOrdered rows

is_before_total : (a b : OutboxRow) → is_before a b ≡ false → is_before b a ≡ true
is_before_total a b h = ground arith

is_before_trans :
    (a b c : OutboxRow) → is_before a b ≡ true → is_before b c ≡ true → is_before a c ≡ true
is_before_trans a b c h k = ground arith

Leads-trans :
    (a b : OutboxRow) (rows : List OutboxRow) → is_before a b ≡ true → Leads b rows → Leads a rows
Leads-trans a b [] h l = tt
Leads-trans a b (c ∷ rows) h l = (is_before_trans a b c h l.0, Leads-trans a b rows h l.1)

Leads-insert_ordered :
    (a row : OutboxRow) (rows : List OutboxRow)
    → is_before a row ≡ true
    → Leads a rows
    → Leads a (insert_ordered row rows)
Leads-insert_ordered a row [] h l = (h, tt)
Leads-insert_ordered a row (b ∷ rows) h l = elim (Bool-cases (is_before row b)) [
  | inl first ↦ rw first (h, l)
  | inr later ↦ rw later (l.0, Leads-insert_ordered a row rows h l.1)
]

IsOrdered-insert_ordered :
    (row : OutboxRow) (rows : List OutboxRow) → IsOrdered rows → IsOrdered (insert_ordered row rows)
IsOrdered-insert_ordered row [] o = (tt, tt)
IsOrdered-insert_ordered row (b ∷ rows) o = elim (Bool-cases (is_before row b)) [
  | inl first ↦ rw first ((first, Leads-trans row b rows first o.0), o)
  | inr later ↦ rw later (
    Leads-insert_ordered b row rows (is_before_total row b later) o.0,
    IsOrdered-insert_ordered row rows o.1,
  )
]

IsOrdered-order_rows : (rows : List OutboxRow) → IsOrdered (order_rows rows)
IsOrdered-order_rows [] = tt
IsOrdered-order_rows (row ∷ rows) =
    IsOrdered-insert_ordered row (order_rows rows) (IsOrdered-order_rows rows)

Perm-insert_ordered :
    (row : OutboxRow) (rows : List OutboxRow) → Perm (insert_ordered row rows) (row ∷ rows)
Perm-insert_ordered row [] = Perm.rfl
Perm-insert_ordered row (b ∷ rows) = elim (Bool-cases (is_before row b)) [
  | inl first ↦ rw first Perm.rfl
  | inr later ↦
      rw later (Perm.trans (Perm.cons b (Perm-insert_ordered row rows)) (Perm.swap row b rows))
]

Leads-drop : (a : OutboxRow) (n : ℕ) (rows : List OutboxRow) → Leads a rows → Leads a (drop n rows)
Leads-drop a zero rows l = l
Leads-drop a (suc n) [] l = tt
Leads-drop a (suc n) (b ∷ rows) l = Leads-drop a n rows l.1

taken-lead :
    (n : ℕ) (rows : List OutboxRow)
    → IsOrdered rows
    → All (λ a. Leads a (drop n rows)) (take n rows)
taken-lead zero rows o = tt
taken-lead (suc n) [] o = tt
taken-lead (suc n) (a ∷ rows) o = (Leads-drop a n rows o.0, taken-lead n rows o.1)

Perm-order_rows : (rows : List OutboxRow) → Perm (order_rows rows) rows
Perm-order_rows [] = Perm.nil
Perm-order_rows (row ∷ rows) =
    Perm.trans (Perm-insert_ordered row (order_rows rows)) (Perm.cons row (Perm-order_rows rows))

taken-count :
    (n : ℕ) (rows : List OutboxRow)
    → (length (take n rows) ≤ n) × ((drop n rows ≡ []) ⊎ (length (take n rows) ≡ n))
taken-count zero rows = (omega arith, inr refl)
taken-count (suc n) [] = (omega arith, inl refl)
taken-count (suc n) (a ∷ rows) =
    let (bound, rest) = taken-count n rows in
    (omega arith, elim rest [ inl none_left ↦ inl none_left | inr full ↦ inr (ap suc full) ])

-- The rows that a claim selects, together with some others, are the rows that are due and not
-- locked; each selected row goes before each of the others, by its creation and then its
-- identifier; at most the limit are selected, and exactly the limit if any are left.
pub selected-first :
    (limit now : ℕ) (locked : OutboxRow → Bool) (rows : List OutboxRow)
    → (left : List OutboxRow) × Perm
        (selected limit locked now rows ++ left)
        (filter (λ row. is_due now row && not (locked row)) rows)
      × All (λ a. Leads a left) (selected limit locked now rows)
      × (length (selected limit locked now rows) ≤ limit)
      × ((left ≡ []) ⊎ (length (selected limit locked now rows) ≡ limit))
unfolding selected
selected-first limit now locked rows =
    let due = filter (λ row. is_due now row && not (locked row)) rows in
    (
      drop limit (order_rows due),
      subst (λ l. Perm l due) (sym (take-append-drop limit (order_rows due))) (Perm-order_rows due),
      taken-lead limit (order_rows due) (IsOrdered-order_rows due),
      (taken-count limit (order_rows due)).0,
      (taken-count limit (order_rows due)).1,
    )
