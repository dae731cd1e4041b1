-- ===== src/Account/Service/Lists.antt =====
-- The lists answer, for each account, what its own detail answers.
use household_back.Base.{
  append_snoc, elem, if◌then◌else◌, ℕ, ◌≡◌, refl, ap, ◌∙◌, Bool, true, false, List, [], ◌∷◌, ◌++◌,
  map, arith,
}
use household_back.Model.{Account, is_investment, Db}
use household_back.Account.Balance.{
  calc_balance, ids_of, investment_ids, load_balance_sources, build_balance,
}
use household_back.Account.Balance.Agreement.{build_balance-eq-calc_balance}
use household_back.Account.Service.{account_response, batch_responses}

elem-ids_of :
    (pre : List Account) (a : Account) (post : List Account)
    → elem a.id (ids_of (pre ++ a ∷ post)) ≡ true
elem-ids_of [] a post = ground arith
elem-ids_of (b ∷ pre) a post = ground (arith, elem-ids_of pre a post)

elem-investment_ids :
    (pre : List Account) (a : Account) (post : List Account)
    → is_investment a.account_type ≡ true
    → elem a.id (investment_ids (pre ++ a ∷ post)) ≡ true
elem-investment_ids [] a post h = rw h (ground arith)
elem-investment_ids (b ∷ pre) a post h =
    step (is_investment b.account_type) (investment_ids (pre ++ a ∷ post))
      (elem-investment_ids pre a post h)
  where
    step :
        (c : Bool) (ids : List ℕ)
        → elem a.id ids ≡ true
        → elem a.id (if c then b.id ∷ ids else ids) ≡ true
    step true ids e = ground (arith, e)
    step false ids e = e

batch_from :
    (pre post : List Account) (db : Db)
    → map (λ a. account_response a (build_balance a (load_balance_sources (pre ++ post) db))) post
      ≡ map (λ a. account_response a (calc_balance a db)) post
batch_from pre [] db = refl
batch_from pre (a ∷ post) db =
    ap
      (λ s.
        account_response a s
        ∷ map
            (λ b. account_response b (build_balance b (load_balance_sources (pre ++ a ∷ post) db)))
            post)
      (build_balance-eq-calc_balance (pre ++ a ∷ post) a db (elem-ids_of pre a post)
        (elem-investment_ids pre a post))
    ∙ ap (λ l. account_response a (calc_balance a db) ∷ l)
        (rw (append_snoc pre a post) at (batch_from (pre ++ a ∷ []) post db))

-- The batch loader and assembler behind both account lists give every account of the list the
-- balance summary that the queries of that account alone give.
pub batch_responses_lem :
    (rows : List Account) (db : Db)
    → batch_responses rows db ≡ map (λ a. account_response a (calc_balance a db)) rows
unfolding batch_responses
batch_responses_lem rows db = batch_from [] rows db
