-- ===== src/Snapshot/Prices.antt =====
-- market_price/service.py: the worth of a holding in a batch, and alone.
use mathlib.Core.Path.{subst}
use text.Mathlib.Text.{◌==◌ as ◌===◌}
use text.Mathlib.TextEquality.{eq_iff}
use household_back.Base.{
  ℤ, All, select, any, elem, ◌==◌, ==_iff, Bool-cases, or_else, or_option, ℕ, ◌≡◌, refl, sym, ap,
  ◌∙◌, inl, inr, Bool, true, false, ◌&&◌, Option, none, some, List, [], ◌∷◌, map, arith,
}
use household_back.Core.{Date, date_eqb}
use household_back.Model.{PortfolioItem, MarketPriceHistory, is_active, Db}
use household_back.Paging.{Distinct, All-map}
use household_back.Keys.{All-both, find-select-elem}
use household_back.Snapshot.Holdings.{
  Holding, Valued, market_text, PriceKey, key_eqb, key_in, find_prices_for_month, price_of,
  price_key, key_from, valued_at, valued_rows, value_holdings_at_month, nothing_valued, find_valued,
  valued_of,
}
use household_back.Snapshot.Scans.{or_later}

any-map_own :
    {A B : Type 0} (f : A → B) (g : B → B → Bool)
    → ((b : B) → g b b ≡ true)
    → (xs : List A) → All (λ x. any (g (f x)) (map f xs) ≡ true) xs
any-map_own f g self [] = tt
any-map_own f g self (x ∷ xs) = (
  rw (self (f x)) refl,
  All-map _ _ (λ y later. or_later (g (f y) (f x)) (any (g (f y)) (map f xs)) later) xs
      (any-map_own f g self xs),
)

elem-any : (k : ℕ) (ids : List ℕ) → elem k ids ≡ any (λ i. k == i) ids
elem-any k [] = refl
elem-any k (i ∷ ids) = rw (elem-any k ids) refl

nat_self : (k : ℕ) → (k == k) ≡ true
nat_self k = (==_iff k k).1 refl

key_self : (k : PriceKey) → key_eqb k k ≡ true
key_self k = rw ((eq_iff k.0 k.0).1 refl, (eq_iff (market_text k.1) (market_text k.1)).1 refl) refl

-- equal keys are in the same lists
key_in_same :
    (j k : PriceKey) (keys : List PriceKey)
    → key_eqb j k ≡ true
    → key_in k keys ≡ true
    → key_in j keys ≡ true
key_in_same j k keys same h =
    subst (λ x. any (λ y. (x === y.0) && (market_text j.1 === market_text y.1)) keys ≡ true)
      (sym ((eq_iff j.0 k.0).0 (both _ _ same).0))
      (subst (λ x. any (λ y. (k.0 === y.0) && (x === market_text y.1)) keys ≡ true)
        (sym ((eq_iff (market_text j.1) (market_text k.1)).0 (both _ _ same).1)) h)
  where
    both : (x y : Bool) → (x && y) ≡ true → (x ≡ true) × (y ≡ true)
    both true true h = (refl, refl)
    both true false h = cc
    both false y h = cc

or_option-none : {A : Type 0} (x : Option A) → or_option x none ≡ x
or_option-none none = refl
or_option-none (some a) = refl

-- the prices of a month, of every key
abbrev pub month_prices : Date → Db → List (PriceKey × ℤ)
month_prices month db =
    map (λ (p : MarketPriceHistory). ((p.code, p.market), p.price))
      (select (λ (p : MarketPriceHistory). date_eqb p.price_date month && is_active p.data_stat_cd)
        db.market_prices)

module _ (month : Date) (keys : List PriceKey) (key : PriceKey)
    (listed : key_in key keys ≡ true) where
  abbrev with_keys : List MarketPriceHistory → List (PriceKey × ℤ)
  with_keys ps =
      map (λ (p : MarketPriceHistory). ((p.code, p.market), p.price))
        (select
          (λ (p : MarketPriceHistory).
            key_in (p.code, p.market) keys
            && (date_eqb p.price_date month && is_active p.data_stat_cd))
          ps)

  abbrev without_keys : List MarketPriceHistory → List (PriceKey × ℤ)
  without_keys ps =
      map (λ (p : MarketPriceHistory). ((p.code, p.market), p.price))
        (select
          (λ (p : MarketPriceHistory). date_eqb p.price_date month && is_active p.data_stat_cd) ps)

  same_price :
      (ps : List MarketPriceHistory) → price_of key (with_keys ps) ≡ price_of key (without_keys ps)
  same_price [] = refl
  same_price (p ∷ ps) = elim (Bool-cases (key_in (p.code, p.market) keys)) [
    | inl there ↦ elim (Bool-cases (date_eqb p.price_date month && is_active p.data_stat_cd)) [
      | inl now ↦ rw (there, now, same_price ps) refl
      | inr later ↦ rw (there, later) (same_price ps)
    ]
    | inr missing ↦ elim (Bool-cases (date_eqb p.price_date month && is_active p.data_stat_cd)) [
      | inl now ↦ elim (Bool-cases (key_eqb (p.code, p.market) key)) [
        | inl same ↦ cc (key_in_same (p.code, p.market) key keys same listed)
        | inr apart ↦ rw (missing, now, apart) (same_price ps ∙ sym (or_option-none _))
      ]
      | inr later ↦ rw (missing, later) (same_price ps)
    ]
  ]

-- the worth of a holding, without a batch
abbrev pub worth : Date → Db → Holding → Valued
worth month db h = valued_at (price_of (price_key db.items h) (month_prices month db)) h

abbrev pub item_of : Holding → ℕ
item_of h = h.item_id

module _ (items : List PortfolioItem) (prices : List (PriceKey × ℤ)) where
  find_valued_missing :
      (k : ℕ) (hs : List Holding)
      → All (λ (h : Holding). (k == h.item_id) ≡ false) hs
      → find_valued k (valued_rows items prices hs) ≡ none
  find_valued_missing k [] a = refl
  find_valued_missing k (h ∷ hs) a = rw (find_valued_missing k hs a.1, turned k h.item_id a.0) refl
    where
      turned : (m n : ℕ) → (m == n) ≡ false → (n == m) ≡ false
      turned m n e = ground arith

  found_before :
      {A : Type 0} (x : Option A) (v : A) (y : Option A) → x ≡ some v → or_option x y ≡ some v
  found_before x v y e = rw e refl

  find_valued_lem :
      (hs : List Holding)
      → Distinct item_of hs
      → All
          (λ (h : Holding).
            find_valued h.item_id (valued_rows items prices hs)
            ≡ some (valued_at (price_of (price_key items h) prices) h))
          hs
  find_valued_lem [] d = tt
  find_valued_lem (h ∷ hs) d = (
    rw (find_valued_missing h.item_id hs d.0, nat_self h.item_id) refl,
    All-map _ _ (λ k found. found_before _ _ _ found) hs (find_valued_lem hs d.1),
  )

-- In a batch of distinct items, each holding has the worth that it has alone.
module _ (month : Date) (db : Db) (hs : List Holding) where
  abbrev batch_items : List PortfolioItem
  batch_items = select (λ (i : PortfolioItem). elem i.id (map item_of hs)) db.items

  abbrev batch_prices : List (PriceKey × ℤ)
  batch_prices = find_prices_for_month (map (price_key batch_items) hs) month db

  same_worth :
      (h : Holding)
      → find_valued h.item_id (valued_rows batch_items batch_prices hs)
        ≡ some (valued_at (price_of (price_key batch_items h) batch_prices) h)
      → key_in (price_key batch_items h) (map (price_key batch_items) hs) ≡ true
      → any (λ i. h.item_id == i) (map item_of hs) ≡ true
      → valued_of h.item_id (value_holdings_at_month hs month db) ≡ worth month db h
  unfolding value_holdings_at_month find_prices_for_month
  same_worth h found key_there item_there =
      ap (λ o. or_else o nothing_valued) found
      ∙ ap (λ px. valued_at px h)
          (same_price month (map (price_key batch_items) hs) (price_key batch_items h) key_there
              db.market_prices
            ∙ ap (λ o. price_of (key_from o h) (month_prices month db))
                (find-select-elem (λ (i : PortfolioItem). i.id) h.item_id (map item_of hs) db.items
                  (elem-any h.item_id (map item_of hs) ∙ item_there)))

  pub value_holdings_lem :
      Distinct item_of hs
      → All
          (λ (h : Holding).
            valued_of h.item_id (value_holdings_at_month hs month db) ≡ worth month db h)
          hs
  value_holdings_lem d =
      All-map _ _ (λ h p. same_worth h p.0 p.1.0 p.1.1) hs
        (All-both _ _ hs (find_valued_lem batch_items batch_prices hs d) (
          All-both _ _ hs (any-map_own (price_key batch_items) key_eqb key_self hs)
            (any-map_own item_of (λ a b. a == b) nat_self hs)))
