-- ===== src/Transaction/Ledger/Pages.antt =====
-- Following the ledger's cursors: each page continues the balances of the page before.
use mathlib.Core.Path.{ap₂}
use household_back.Base.{
  ltb→lt, ltb-length-take, ℤ, ◌+ℤ◌, int_laws, +ℤ_comm, +ℤ_assoc, length, take, drop, last?,
  take-append-drop, All, append_snoc, last?-snoc, snoc_cases, take-take, last?-append, last?-take,
  select, sum_by, ltb, ◌==◌, if◌then◌else◌, Bool-cases, ℕ, zero, suc, ◌<◌, ◌≡◌, refl, sym, ap, ◌∙◌,
  inl, inr, Bool, true, ◌&&◌, Option, none, some, List, [], ◌∷◌, ◌++◌, arith,
}
use household_back.Model.{Account, Transaction, is_active, Db}
use household_back.Transaction.Response.{load_ledger_maps}
use household_back.Paging.{Distinct, All-map}
use household_back.Transaction.Repository.{
  account_filter, involves, conditions, tx_desc, list_by_cursor, count_transactions,
}
use household_back.Transaction.Sums.{counted_for}
use household_back.Transaction.Rules.{IsConsistent}
use household_back.Transaction.Paging.{listed, tx_id, list_by_cursor_first, list_by_cursor_next}
use household_back.Transaction.Service.{opt_cursor, last_cursor}
use household_back.Transaction.Ledger.{
  page_of, LedgerCursor, AccountLedgerPage, signed_amount, ledger_start_balance, cursor_row,
  cursor_carry, with_carry, ledger_page,
}
use household_back.Transaction.Ledger.Balance.{cash_flow-sum_for_account}
use household_back.Transaction.Ledger.Running.{
  balances_forward, balances, sum_by-append, sum_by-order_by, build_ledger_items_lem,
}

-- Rows that involve an account belong to its household.
abbrev pub InHousehold : ℕ → ℕ → Transaction → Type 0
InHousehold household_id a t = involves a t ≡ true → (t.household_id == household_id) ≡ true

-- the rows of an account's ledger, newest first
abbrev pub ledger_rows : ℕ → ℕ → Db → List Transaction
ledger_rows household_id a db = listed household_id (account_filter a) db

filter_lem :
    (household_id a : ℕ) (t : Transaction)
    → InHousehold household_id a t
    → conditions household_id (account_filter a) t ≡ counted_for a none t
unfolding conditions
filter_lem household_id a t h =
    by_test (t.household_id == household_id) (is_active t.data_stat_cd) (involves a t) h
  where
    by_test :
        (same act inv : Bool)
        → (inv ≡ true → same ≡ true)
        → (same && (act && (true && (inv && (true && (true && true)))))) ≡ (act && (inv && true))
    by_test same act inv k = ground arith

select_lem :
    (p q : Transaction → Bool) (ts : List Transaction)
    → All (λ t. p t ≡ q t) ts
    → select p ts ≡ select q ts
select_lem p q [] h = refl
select_lem p q (t ∷ ts) h = rw (h.0, select_lem p q ts h.1)

take-balances_forward :
    (a n : ℕ) (opening : ℤ) (rows : List Transaction)
    → take n (balances_forward a opening rows)
      ≡ balances_forward a (opening +ℤ sum_by (signed_amount a) (drop n rows)) (take n rows)
take-balances_forward a zero opening rows = refl
take-balances_forward a (suc n) opening [] = refl
take-balances_forward a (suc n) opening (r ∷ rows) = rw (take-balances_forward a n opening rows) (
    ap
      (λ b.
        b ∷ balances_forward a (opening +ℤ sum_by (signed_amount a) (drop n rows)) (take n rows))
      (regroup opening (signed_amount a r) _ _ _ (split_sum a n rows)))
  where
    split_sum :
        (a n : ℕ) (rows : List Transaction)
        → sum_by (signed_amount a) rows
          ≡ sum_by (signed_amount a) (take n rows) +ℤ sum_by (signed_amount a) (drop n rows)
    split_sum a n rows =
        ap (sum_by (signed_amount a)) (sym (take-append-drop n rows))
        ∙ sum_by-append (signed_amount a) (take n rows) (drop n rows)

    regroup : (o x s t d : ℤ) → s ≡ t +ℤ d → o +ℤ (x +ℤ s) ≡ o +ℤ d +ℤ (x +ℤ t)
    regroup o x s t d e = rw e (omega int_laws)

-- A page is determined by its rows and by the balance from before its oldest row.
page_of_lem :
    (account : Account) (rows items_rows : List Transaction) (opening : ℤ) (limit total : ℕ)
    (db : Db)
    → take limit rows ≡ items_rows
    → let page =
        page_of account rows
          (opening +ℤ sum_by (signed_amount account.id) items_rows)
          limit
          total
          db in
      (balances page.items ≡ balances_forward account.id opening items_rows)
      × (page.next_cursor
          ≡ (if ltb limit (length rows) then with_carry (last_cursor items_rows) opening else none))
unfolding page_of
page_of_lem account rows items_rows opening limit total db e = rw (← e) (
    let maps = load_ledger_maps (take limit rows) db in
    let (items, carry) =
      build_ledger_items_lem account.id maps.0 maps.1 maps.2 opening (take limit rows) in
    (
      items,
      ap
          (λ b.
            if ltb limit (length rows) then with_carry (last_cursor (take limit rows)) b else none)
          carry,
    ))

last_cursor-append :
    (pre items : List Transaction) {c : Transaction}
    → last? items ≡ some c
    → last_cursor (pre ++ items) ≡ last_cursor items
last_cursor-append pre items h = ap opt_cursor (last?-append pre items h ∙ sym h)

module _ (household_id : ℕ) (account : Account) (limit : ℕ) (db : Db)
    (unique : Distinct tx_id db.transactions) (rules : All IsConsistent db.transactions)
    (tenancy : All (InHousehold household_id account.id) db.transactions) where
  -- The newest row's balance is the whole cash balance.
  start_lem :
      ledger_start_balance account none none db
      ≡ account.start_balance
        +ℤ sum_by (signed_amount account.id) (ledger_rows household_id account.id db)
  unfolding ledger_start_balance
  start_lem =
      cash_flow-sum_for_account account.start_balance account.id none db rules
      ∙ ap (λ s. account.start_balance +ℤ s)
          (ap (sum_by (signed_amount account.id)) (
              sym (
                select_lem (conditions household_id (account_filter account.id))
                  (counted_for account.id none) db.transactions
                  (All-map (InHousehold household_id account.id)
                    (λ t.
                      conditions household_id (account_filter account.id) t
                      ≡ counted_for account.id none t)
                    (filter_lem household_id account.id) db.transactions tenancy)))
            ∙ sym (
                sum_by-order_by (signed_amount account.id) tx_desc
                  (select (conditions household_id (account_filter account.id)) db.transactions)))

  -- The cursor that stands between two parts of the ledger: none before the first row.
  abbrev cursor_between : List Transaction → List Transaction → Option LedgerCursor
  cursor_between pre post =
      with_carry (last_cursor pre) (account.start_balance +ℤ sum_by (signed_amount account.id) post)

  start_between :
      (pre post : List Transaction)
      → ledger_rows household_id account.id db ≡ pre ++ post
      → ledger_start_balance account (cursor_carry (cursor_between pre post)) none db
        ≡ account.start_balance +ℤ sum_by (signed_amount account.id) post
  unfolding ledger_start_balance
  start_between pre post e = elim (snoc_cases pre) [
    | inl empty ↦ rw empty (
        start_lem
        ∙ ap (λ l. account.start_balance +ℤ sum_by (signed_amount account.id) l)
            (e ∙ ap (λ l. l ++ post) empty))
    | inr (i, c, last) ↦ rw (last, last?-snoc i c)
  ]

  rows_between :
      (pre post : List Transaction)
      → ledger_rows household_id account.id db ≡ pre ++ post
      → list_by_cursor household_id
          (account_filter account.id)
          (cursor_row (cursor_between pre post))
          limit
          db
        ≡ take (suc limit) post
  rows_between pre post e = elim (snoc_cases pre) [
    | inl empty ↦ rw empty (
        list_by_cursor_first household_id (account_filter account.id) limit db
        ∙ ap (take (suc limit)) (e ∙ ap (λ l. l ++ post) empty))
    | inr (i, c, last) ↦
        rw (last, last?-snoc i c)
          (list_by_cursor_next household_id (account_filter account.id) limit db i c post unique
            (e ∙ ap (λ l. l ++ post) last ∙ append_snoc i c post))
  ]

  -- what the page holds, once its rows and its start balance are known
  abbrev built : List Transaction → AccountLedgerPage
  built post =
      page_of account (take (suc limit) post)
        (account.start_balance +ℤ sum_by (signed_amount account.id) post) limit
        (count_transactions household_id (account_filter account.id) db) db

  page_between :
      (pre post : List Transaction)
      → ledger_rows household_id account.id db ≡ pre ++ post
      → ledger_page household_id account none (cursor_between pre post) limit db ≡ built post
  unfolding ledger_page
  page_between pre post e =
      ap₂
        (λ rows start.
          page_of account rows start limit
            (count_transactions household_id (account_filter account.id) db) db)
        (rows_between pre post e) (start_between pre post e)

  split_start :
      (post : List Transaction)
      → account.start_balance +ℤ sum_by (signed_amount account.id) post
        ≡ account.start_balance
          +ℤ sum_by (signed_amount account.id) (drop limit post)
          +ℤ sum_by (signed_amount account.id) (take limit post)
  split_start post =
      ap (λ s. account.start_balance +ℤ s)
        (ap (sum_by (signed_amount account.id)) (sym (take-append-drop limit post))
          ∙ sum_by-append (signed_amount account.id) (take limit post) (drop limit post)
          ∙ +ℤ_comm (sum_by (signed_amount account.id) (take limit post))
              (sum_by (signed_amount account.id) (drop limit post)))
      ∙ sym (
          +ℤ_assoc account.start_balance (sum_by (signed_amount account.id) (drop limit post))
            (sum_by (signed_amount account.id) (take limit post)))

  next_between :
      (pre post : List Transaction)
      → 0 < limit
      → (if ltb limit (length post)
          then with_carry
              (last_cursor (take limit post))
              (account.start_balance +ℤ sum_by (signed_amount account.id) (drop limit post))
          else none)
        ≡ (if ltb limit (length post)
            then cursor_between (pre ++ take limit post) (drop limit post)
            else none)
  next_between pre post pos_limit = elim (Bool-cases (ltb limit (length post))) [
    | inl more ↦
        let (c, last) =
          last?-take limit post pos_limit (omega (arith, ltb→lt limit (length post) more)) in
        rw more (
          ap
            (λ cur.
              with_carry cur
                (account.start_balance +ℤ sum_by (signed_amount account.id) (drop limit post)))
            (sym (last_cursor-append pre (take limit post) last)))
    | inr end ↦ rw end
  ]

  -- With primary keys, consistent rows and rows of the account all in its household, and a limit of
  -- at least one: the ledger page read at the cursor between any two parts of the ledger of an
  -- account shows on each row the balance that working forward from the opening balance gives, and
  -- its next cursor stands behind its last row exactly when there are more rows.
  pub ledger_page_lem :
      (pre post : List Transaction)
      → ledger_rows household_id account.id db ≡ pre ++ post
      → 0 < limit
      → let page = ledger_page household_id account none (cursor_between pre post) limit db in
        (balances page.items ≡ take limit (balances_forward account.id account.start_balance post))
        × (page.next_cursor ≡ (
            if ltb limit (length post)
            then cursor_between (pre ++ take limit post) (drop limit post)
            else none))
  ledger_page_lem pre post e pos_limit =
      rw (page_between pre post e, split_start post)
        (let (items, next) =
            page_of_lem account (take (suc limit) post) (take limit post)
              (account.start_balance +ℤ sum_by (signed_amount account.id) (drop limit post)) limit
              (count_transactions household_id (account_filter account.id) db) db
              (take-take limit post) in
          (
            items ∙ sym (take-balances_forward account.id limit account.start_balance post),
            next
                ∙ ap
                    (λ b.
                      if b
                      then with_carry (last_cursor (take limit post)) (
                          account.start_balance
                          +ℤ sum_by (signed_amount account.id) (drop limit post))
                      else none)
                    (ltb-length-take limit post)
                ∙ next_between pre post pos_limit,
          ))
