-- ===== src/Listing/Pages.antt =====
-- Reading a list page by page, each page at the cursor that the last one sent.
use household_back.Base.{
  length, take, drop, last?, take-append-drop, append_snoc, last?-snoc, snoc_cases, take-take,
  last?-take, append_assoc_lem, ltb-length-take, select, order_by, ltb, ◌==◌, if◌then◌else◌,
  Bool-cases, ℕ, zero, suc, ◌-◌, ◌<◌, ◌≡◌, refl, sym, ap, ◌∙◌, ◌⊎◌, inl, inr, Bool, true, false,
  ◌&&◌, ◌||◌, Option, none, some, List, [], ◌∷◌, ◌++◌, map, arith,
}
use household_back.Paging.{Distinct, order_by-after}
use household_back.Listing.{
  Page, cursor_page, cursor_of_last, RowCursor, Columns, row_cursor, row_after, newest_first,
  page_rows, next_cursor_of,
}

module _ {A : Type 0} where
  take_all : (n : ℕ) (xs : List A) → ltb n (length xs) ≡ false → take n xs ≡ xs
  take_all zero [] h = refl
  take_all zero (x ∷ xs) h = absurd (nonempty (length xs) h)
    where
      nonempty : (k : ℕ) → ltb 0 (suc k) ≡ false → ⊥
      nonempty k e = ground arith
  take_all (suc n) [] h = refl
  take_all (suc n) (x ∷ xs) h = ap (λ l. x ∷ l) (take_all n xs (ground arith))

  length-drop : (n : ℕ) (xs : List A) → length (drop n xs) ≡ length xs - n
  length-drop zero xs = omega arith
  length-drop (suc n) [] = omega arith
  length-drop (suc n) (x ∷ xs) = omega (arith, length-drop n xs)

  append_nil : (xs : List A) → xs ++ [] ≡ xs
  append_nil [] = refl
  append_nil (x ∷ xs) = rw (append_nil xs)

module _ {Row : Type 0} (columns : Columns Row) where
  open columns use {frst_reg_dt_of, id_of}

  after : Row → Row → Bool
  after x y = row_after columns (row_cursor columns x) y

  after_asym : (x y : Row) → after x y ≡ true → after y x ≡ false
  unfolding after row_after
  after_asym x y h = ground arith

  after_between : (x y z : Row) → after x z ≡ true → (after x y || after y z) ≡ true
  unfolding after row_after
  after_between x y z h = ground arith

  after_total : (x y : Row) → (id_of x == id_of y) ≡ false → (after x y || after y x) ≡ true
  unfolding after row_after
  after_total x y h = ground arith

  -- the whole filtered list
  abbrev pub listed : (Row → Bool) → List Row → List Row
  listed conditions rows = order_by (newest_first columns) (select conditions rows)

  pub page_rows_next :
      (conditions : Row → Bool) (limit : ℕ) (rows pre : List Row) (c : Row) (post : List Row)
      → Distinct id_of rows
      → listed conditions rows ≡ pre ++ c ∷ post
      → page_rows columns conditions (some (row_cursor columns c)) limit rows
        ≡ take (suc limit) post
  unfolding page_rows after
  page_rows_next conditions limit rows pre c post d e = ap (take (suc limit)) (
      order_by-after id_of after after_asym after_between after_total conditions rows pre c post d
        e)

  page_rows_first :
      (conditions : Row → Bool) (limit : ℕ) (rows : List Row)
      → page_rows columns conditions none limit rows ≡ take (suc limit) (listed conditions rows)
  unfolding page_rows
  page_rows_first conditions limit rows =
      ap (λ (l : List Row). take (suc limit) (order_by (newest_first columns) l)) (no_cursor rows)
    where
      and_true : (b : Bool) → (b && true) ≡ b
      and_true true = refl
      and_true false = refl

      no_cursor : (l : List Row) → select (λ r. conditions r && true) l ≡ select conditions l
      no_cursor [] = refl
      no_cursor (r ∷ l) = rw (and_true (conditions r), no_cursor l)

  -- A reader that follows the cursors: the items of one page after another, while there is a next.
  unfoldable pub read_all : ℕ → (Row → Bool) → Option RowCursor → ℕ → List Row → List Row
  unfolding page_rows
  read_all zero conditions cursor limit rows = []
  read_all (suc fuel) conditions cursor limit rows =
      let page = page_rows columns conditions cursor limit rows in
      let more = read_all fuel conditions (next_cursor_of columns limit page) limit rows in
      take limit page ++ (if ltb limit (length page) then more else [])

  read_step :
      (fuel : ℕ) (conditions : Row → Bool) (limit : ℕ) (rows pre post : List Row)
      (cursor : Option RowCursor)
      → Distinct id_of rows
      → 0 < limit
      → listed conditions rows ≡ pre ++ post
      → page_rows columns conditions cursor limit rows ≡ take (suc limit) post
      → length post < fuel
      → read_all fuel conditions cursor limit rows ≡ post
  unfolding read_all
  read_step zero conditions limit rows pre post cursor d some_limit whole page enough =
      absurd (omega arith)
  read_step (suc fuel) conditions limit rows pre post cursor d some_limit whole page enough =
      rw (page, take-take limit post, ltb-length-take limit post)
        (elim (Bool-cases (ltb limit (length post))) [
          | inl more ↦
              rw more (
                next_page more (snoc_cases (take limit post))
                  (read_step fuel conditions limit rows))
          | inr done ↦ rw (done, take_all limit post done) (append_nil post)
        ])
    where
      longer : (n k : ℕ) → 0 < n → ltb n k ≡ true → (0 < k) × (k - n < k)
      longer n k a b = ground arith

      nothing : {A : Type 0} {x : A} → last? [] ≡ some x → ⊥
      nothing h = cc

      next_page :
          ltb limit (length post) ≡ true
          → ((take limit post ≡ [])
              ⊎ ((i : List Row) × (c : Row) × (take limit post ≡ i ++ c ∷ [])))
          → ((pre' post' : List Row) (cursor' : Option RowCursor)
              → Distinct id_of rows
              → 0 < limit
              → listed conditions rows ≡ pre' ++ post'
              → page_rows columns conditions cursor' limit rows ≡ take (suc limit) post'
              → length post' < fuel
              → read_all fuel conditions cursor' limit rows ≡ post')
          → take limit post
              ++ read_all fuel conditions
                  (cursor_of_last columns (last? (take limit post)))
                  limit
                  rows
            ≡ post
      next_page more (inl empty) again =
          let (c, e) =
            last?-take limit post some_limit (longer limit (length post) some_limit more).0 in
          absurd (nothing (ap last? (sym empty) ∙ e))
      next_page more (inr (i, c, e)) again =
          let cut : post ≡ i ++ c ∷ drop limit post =
            sym (take-append-drop limit post)
            ∙ ap (λ l. l ++ drop limit post) e
            ∙ append_snoc i c (drop limit post) in
          let split : listed conditions rows ≡ (pre ++ i) ++ c ∷ drop limit post =
            whole ∙ ap (λ l. pre ++ l) cut ∙ sym (append_assoc_lem pre i (c ∷ drop limit post)) in
          ap
            (λ (l : List Row).
              take limit post
              ++ read_all fuel conditions (cursor_of_last columns (last? l)) limit rows)
            e
          ∙ ap
              (λ (o : Option Row).
                take limit post ++ read_all fuel conditions (cursor_of_last columns o) limit rows)
              (last?-snoc i c)
          ∙ ap (λ (l : List Row). take limit post ++ l)
              (again ((pre ++ i) ++ c ∷ []) (drop limit post) (some (row_cursor columns c)) d
                some_limit (split ∙ sym (append_snoc (pre ++ i) c (drop limit post)))
                (page_rows_next conditions limit rows (pre ++ i) c (drop limit post) d split)
                (omega (arith, length-drop limit post, longer limit (length post) some_limit more)))
          ∙ take-append-drop limit post

  pub read_all_lem :
      (fuel : ℕ) (conditions : Row → Bool) (limit : ℕ) (rows : List Row)
      → Distinct id_of rows
      → 0 < limit
      → length (listed conditions rows) < fuel
      → read_all fuel conditions none limit rows ≡ listed conditions rows
  read_all_lem fuel conditions limit rows d some_limit enough =
      read_step fuel conditions limit rows [] (listed conditions rows) none d some_limit refl
        (page_rows_first conditions limit rows) enough

-- A client that loads one page after another, while there is a next one.
unfoldable pub read_pages :
    {Item : Type 0} → (Option RowCursor → Page Item) → ℕ → Option RowCursor → List Item
read_pages load zero cursor = []
read_pages load (suc fuel) cursor =
    let page = load cursor in
    let more = read_pages load fuel page.next_cursor in
    page.items ++ (if page.has_next then more else [])

module _ {Row Item : Type 0} (columns : Columns Row) (item_of : Row → Item) where
  map_append : (xs ys : List Row) → map item_of (xs ++ ys) ≡ map item_of xs ++ map item_of ys
  map_append [] ys = refl
  map_append (x ∷ xs) ys = rw (map_append xs ys)

  map_if :
      (b : Bool) (xs : List Row)
      → map item_of (if b then xs else []) ≡ (if b then map item_of xs else [])
  map_if true xs = refl
  map_if false xs = refl

  read_pages-read_all :
      (items_of : List Row → List Item) (conditions : Row → Bool) (limit : ℕ) (table : List Row)
      (fuel : ℕ) (cursor : Option RowCursor)
      → ((rows : List Row) → items_of rows ≡ map item_of rows)
      → read_pages (λ c. cursor_page columns items_of conditions c limit table) fuel cursor
        ≡ map item_of (read_all columns fuel conditions cursor limit table)
  unfolding read_pages read_all cursor_page
  read_pages-read_all items_of conditions limit table zero cursor same = refl
  read_pages-read_all items_of conditions limit table (suc fuel) cursor same =
      let rows = page_rows columns conditions cursor limit table in
      let more = read_all columns fuel conditions (next_cursor_of columns limit rows) limit table in
      rw
        (
          same (take limit rows),
          read_pages-read_all items_of conditions limit table fuel
              (next_cursor_of columns limit rows) same,
        )
        (sym (
          map_append (take limit rows) (if ltb limit (length rows) then more else [])
          ∙ ap (λ l. map item_of (take limit rows) ++ l) (map_if (ltb limit (length rows)) more)))

  pub read_pages_lem :
      (items_of : List Row → List Item) (conditions : Row → Bool) (limit fuel : ℕ)
      (table : List Row)
      → ((rows : List Row) → items_of rows ≡ map item_of rows)
      → Distinct columns.id_of table
      → 0 < limit
      → length (listed columns conditions table) < fuel
      → read_pages (λ c. cursor_page columns items_of conditions c limit table) fuel none
        ≡ map item_of (listed columns conditions table)
  read_pages_lem items_of conditions limit fuel table same d some_limit enough =
      read_pages-read_all items_of conditions limit table fuel none same
      ∙ ap (map item_of) (read_all_lem columns fuel conditions limit table d some_limit enough)
