-- ===== src/Listing.antt =====
-- The lists that are ordered by frst_reg_dt DESC, id DESC, as categories and fixed expenses are
-- (category/repository.py and fixed/repository.py): filter, cut at the cursor, limit + 1 rows.
use household_back.Base.{
  ℤ, pos, ltb_ℤ, eqb_ℤ, length, take, last?, select, count, order_by, ltb, leb, ◌==◌, if◌then◌else◌,
  or_else, ℕ, suc, String, refl, Bool, true, false, not, ◌&&◌, ◌||◌, Option, none, some, List, [],
  ◌∷◌, arith,
}
pub mod Pages
pub mod Tests

-- `{frst_reg_dt}|{id}`, decoded
pub record RowCursor : Type 0 where
  pub frst_reg_dt : ℕ
  pub id : ℕ

-- the columns that the lists read
pub record Columns (Row : Type 0) : Type 0 where
  pub frst_reg_dt_of : Row → ℕ
  pub id_of : Row → ℕ
  pub name_of : Row → String
  pub sort_order_of : Row → ℤ

abbrev max_ℤ : ℤ → ℤ → ℤ
max_ℤ a b = if ltb_ℤ a b then b else a

module _ {Row : Type 0} (columns : Columns Row) where
  open columns use {frst_reg_dt_of, id_of, sort_order_of}

  abbrev pub row_cursor : Row → RowCursor
  row_cursor r = record { frst_reg_dt = frst_reg_dt_of r; id = id_of r }

  -- `_cursor_after`
  unfoldable pub row_after : RowCursor → Row → Bool
  row_after c r =
      ltb (frst_reg_dt_of r) c.frst_reg_dt
      || (frst_reg_dt_of r == c.frst_reg_dt && ltb (id_of r) c.id)

  -- no cursor is no condition
  abbrev pub past_cursor : Option RowCursor → Row → Bool
  unfolding row_after
  past_cursor none r = true
  past_cursor (some c) r = row_after c r

  -- ORDER BY frst_reg_dt DESC, id DESC
  abbrev pub newest_first : Row → Row → Bool
  newest_first x y = not (row_after (row_cursor y) x)

  -- `list_by_cursor`, on rows that pass the other conditions
  unfoldable pub page_rows : (Row → Bool) → Option RowCursor → ℕ → List Row → List Row
  unfolding row_after
  page_rows conditions cursor limit rows =
      take (suc limit)
        (order_by newest_first (select (λ r. conditions r && past_cursor cursor r) rows))

  abbrev pub cursor_of_last : Option Row → Option RowCursor
  cursor_of_last none = none
  cursor_of_last (some r) = some (row_cursor r)

  -- the cursor that the page sends back
  abbrev pub next_cursor_of : ℕ → List Row → Option RowCursor
  next_cursor_of limit rows =
      if ltb limit (length rows) then cursor_of_last (last? (take limit rows)) else none

  -- MAX(sort_order) over the rows that pass, 0 without rows
  abbrev max_of : (Row → Bool) → List Row → Option ℤ
  max_of p [] = none
  max_of p (r ∷ rows) =
      let rest = max_of p rows in
      if p r
      then some (elim rest [ none ↦ sort_order_of r | some m ↦ max_ℤ (sort_order_of r) m ])
      else rest

  abbrev pub max_sort : (Row → Bool) → List Row → ℤ
  max_sort p rows = or_else (max_of p rows) (pos 0)

  -- ORDER BY sort_order, frst_reg_dt
  abbrev pub by_sort_order : Row → Row → Bool
  by_sort_order x y =
      ltb_ℤ (sort_order_of x) (sort_order_of y)
      || (eqb_ℤ (sort_order_of x) (sort_order_of y) && leb (frst_reg_dt_of x) (frst_reg_dt_of y))

-- an optional search term: an empty text is no condition
abbrev pub term_passes :
    (String → String → Bool) → (String → String) → Option String → String → Bool
term_passes ilike strip none name = true
term_passes ilike strip (some String.[]) name = true
term_passes ilike strip (some term) name = ilike (strip term) name

abbrev pub bool_eqb : Bool → Bool → Bool
bool_eqb true b = b
bool_eqb false b = not b

abbrev pub flag_passes : Option Bool → Bool → Bool
flag_passes none b = true
flag_passes (some a) b = bool_eqb b a

-- `CursorPage`
pub record Page (Item : Type 0) : Type 0 where
  pub items : List Item
  pub next_cursor : Option RowCursor
  pub has_next : Bool
  pub total_count : ℕ

-- what the services make of the rows: one more than the limit says that there is a next page
unfoldable pub cursor_page :
    {Row Item : Type 0}
    → Columns Row
    → (List Row → List Item)
    → (Row → Bool)
    → Option RowCursor
    → ℕ
    → List Row
    → Page Item
unfolding page_rows
cursor_page columns items_of conditions cursor limit table =
    let rows = page_rows columns conditions cursor limit table in
    record {
      items = items_of (take limit rows);
      next_cursor = next_cursor_of columns limit rows;
      has_next = ltb limit (length rows);
      total_count = count conditions table;
    }
