-- ===== src/Transaction/Paging.antt =====
-- transaction/repository.py: `list_by_cursor` pages through the filtered list in its order, each
-- row once.
use mathlib.Core.Path.{fun_ext}
use household_back.Base.{
  take, select, order_by, ltb, ◌==◌, ℕ, suc, ◌≡◌, refl, sym, ap, ◌∙◌, Bool, true, false, ◌&&◌, ◌||◌,
  none, some, List, ◌∷◌, ◌++◌, arith,
}
use household_back.Model.{Transaction, Db}
use household_back.Paging.{Distinct, order_by-after}
use household_back.Transaction.Repository.{
  TransactionFilter, conditions, cursor_of, cursor_after, tx_desc, list_by_cursor,
}

-- the descending order of the list: `y` comes after `x`
abbrev pub after_tx : Transaction → Transaction → Bool
after_tx x y = cursor_after (cursor_of x) y

-- one level of a lexicographic comparison
abbrev lex : ℕ → ℕ → Bool → Bool
lex a b rest = ltb a b || (a == b && rest)

lex_asym : (a b : ℕ) (r s : Bool) → (r ≡ true → s ≡ false) → lex a b r ≡ true → lex b a s ≡ false
lex_asym a b r s k h = ground arith

lex_between :
    (a b c : ℕ) (r s t : Bool)
    → (t ≡ true → (r || s) ≡ true)
    → lex a c t ≡ true
    → (lex a b r || lex b c s) ≡ true
lex_between a b c r s t k h = ground arith

lex_total : (a b : ℕ) (r s : Bool) → (r || s) ≡ true → (lex a b r || lex b a s) ≡ true
lex_total a b r s h = ground arith

-- The two nested comparisons, dates first, as one chain of five.
flatten :
    (ly ey lm em ld ed rest : Bool)
    → (ly || (ey && (lm || (em && ld))) || ((ey && (em && ed)) && rest))
      ≡ (ly || (ey && (lm || (em && (ld || (ed && rest))))))
flatten ly ey lm em ld ed rest = ground arith

-- the comparison from each key on
abbrev by_id : Transaction → Transaction → Bool
by_id x y = ltb y.id x.id

abbrev by_reg : Transaction → Transaction → Bool
by_reg x y = lex y.frst_reg_dt x.frst_reg_dt (by_id x y)

abbrev by_day : Transaction → Transaction → Bool
by_day x y = lex y.tx_date.day x.tx_date.day (by_reg x y)

abbrev by_month : Transaction → Transaction → Bool
by_month x y = lex y.tx_date.month x.tx_date.month (by_day x y)

abbrev by_year : Transaction → Transaction → Bool
by_year x y = lex y.tx_date.year x.tx_date.year (by_month x y)

after_tx-eq-by_year : (x y : Transaction) → after_tx x y ≡ by_year x y
unfolding cursor_after
after_tx-eq-by_year x y =
    flatten (ltb y.tx_date.year x.tx_date.year) (y.tx_date.year == x.tx_date.year)
      (ltb y.tx_date.month x.tx_date.month) (y.tx_date.month == x.tx_date.month)
      (ltb y.tx_date.day x.tx_date.day) (y.tx_date.day == x.tx_date.day) (by_reg x y)

ltb_asym : (a b : ℕ) → ltb a b ≡ true → ltb b a ≡ false
ltb_asym a b h = ground arith

ltb_between : (a b c : ℕ) → ltb a c ≡ true → (ltb a b || ltb b c) ≡ true
ltb_between a b c h = ground arith

module _ (x y : Transaction) where
  by_reg_asym : by_reg x y ≡ true → by_reg y x ≡ false
  by_reg_asym = lex_asym y.frst_reg_dt x.frst_reg_dt (by_id x y) (by_id y x) (ltb_asym y.id x.id)

  by_day_asym : by_day x y ≡ true → by_day y x ≡ false
  by_day_asym = lex_asym y.tx_date.day x.tx_date.day (by_reg x y) (by_reg y x) by_reg_asym

  by_month_asym : by_month x y ≡ true → by_month y x ≡ false
  by_month_asym = lex_asym y.tx_date.month x.tx_date.month (by_day x y) (by_day y x) by_day_asym

  by_year_asym : by_year x y ≡ true → by_year y x ≡ false
  by_year_asym = lex_asym y.tx_date.year x.tx_date.year (by_month x y) (by_month y x) by_month_asym

  after_tx_asym : after_tx x y ≡ true → after_tx y x ≡ false
  after_tx_asym h = after_tx-eq-by_year y x ∙ by_year_asym (sym (after_tx-eq-by_year x y) ∙ h)

  by_id_total : (x.id == y.id) ≡ false → (by_id x y || by_id y x) ≡ true
  by_id_total h = ground arith

  by_year_total : (x.id == y.id) ≡ false → (by_year x y || by_year y x) ≡ true
  by_year_total h = lex_total y.tx_date.year x.tx_date.year (by_month x y) (by_month y x) (
      lex_total y.tx_date.month x.tx_date.month (by_day x y) (by_day y x) (
        lex_total y.tx_date.day x.tx_date.day (by_reg x y) (by_reg y x)
          (lex_total y.frst_reg_dt x.frst_reg_dt (by_id x y) (by_id y x) (by_id_total h))))

  after_tx_total : (x.id == y.id) ≡ false → (after_tx x y || after_tx y x) ≡ true
  after_tx_total h = rw (after_tx-eq-by_year x y, after_tx-eq-by_year y x) (by_year_total h)

module _ (x y z : Transaction) where
  by_reg_between : by_reg x z ≡ true → (by_reg y z || by_reg x y) ≡ true
  by_reg_between =
      lex_between z.frst_reg_dt y.frst_reg_dt x.frst_reg_dt (by_id y z) (by_id x y) (by_id x z)
        (ltb_between z.id y.id x.id)

  by_day_between : by_day x z ≡ true → (by_day y z || by_day x y) ≡ true
  by_day_between =
      lex_between z.tx_date.day y.tx_date.day x.tx_date.day (by_reg y z) (by_reg x y) (by_reg x z)
        by_reg_between

  by_month_between : by_month x z ≡ true → (by_month y z || by_month x y) ≡ true
  by_month_between =
      lex_between z.tx_date.month y.tx_date.month x.tx_date.month (by_day y z) (by_day x y)
        (by_day x z) by_day_between

  by_year_between : by_year x z ≡ true → (by_year y z || by_year x y) ≡ true
  by_year_between =
      lex_between z.tx_date.year y.tx_date.year x.tx_date.year (by_month y z) (by_month x y)
        (by_month x z) by_month_between

  or_comm : (b c : Bool) → (b || c) ≡ true → (c || b) ≡ true
  or_comm b c h = ground arith

  after_tx_between : after_tx x z ≡ true → (after_tx x y || after_tx y z) ≡ true
  after_tx_between h =
      rw (after_tx-eq-by_year x y, after_tx-eq-by_year y z)
        (or_comm (by_year y z) (by_year x y) (by_year_between (sym (after_tx-eq-by_year x z) ∙ h)))

-- the whole list that a filter pages through
abbrev pub listed : ℕ → TransactionFilter → Db → List Transaction
listed household_id f db = order_by tx_desc (select (conditions household_id f) db.transactions)

abbrev pub tx_id : Transaction → ℕ
tx_id t = t.id

and_true : (b : Bool) → (b && true) ≡ b
and_true true = refl
and_true false = refl

-- The first page is the beginning of the whole list.
pub list_by_cursor_first :
    (household_id : ℕ) (f : TransactionFilter) (limit : ℕ) (db : Db)
    → list_by_cursor household_id f none limit db ≡ take (suc limit) (listed household_id f db)
unfolding list_by_cursor
list_by_cursor_first household_id f limit db =
    ap (λ p. take (suc limit) (order_by tx_desc (select p db.transactions)))
      (fun_ext (λ t. and_true (conditions household_id f t)))

pub list_by_cursor_next :
    (household_id : ℕ) (f : TransactionFilter) (limit : ℕ) (db : Db) (pre : List Transaction)
    (c : Transaction) (post : List Transaction)
    → Distinct tx_id db.transactions
    → listed household_id f db ≡ pre ++ c ∷ post
    → list_by_cursor household_id f (some (cursor_of c)) limit db ≡ take (suc limit) post
unfolding list_by_cursor
list_by_cursor_next household_id f limit db pre c post d e = ap (take (suc limit)) (
    order_by-after tx_id after_tx after_tx_asym after_tx_between after_tx_total
      (conditions household_id f) db.transactions pre c post d e)
