-- ===== src/Household/Steps.antt =====
-- household/service.py: each operation keeps the rules of households and members.
use mathlib.Core.Path.{subst}
use household_back.Base.{
  All, find, any, update_where, count, find-All, find-passes, All-update_where, ◌==◌, if◌then◌else◌,
  ==_iff, Bool-cases, ℕ, ◌≤◌, ◌≡◌, refl, sym, ap, ◌∙◌, inl, inr, Bool, true, false, not, ◌&&◌,
  Option, none, some, [], ◌∷◌, ◌++◌, arith,
}
use household_back.Core.{household_not_owner, err, ok, ok-injective}
use household_back.Model.{Household, HouseholdMember, deleted, is_active, Db}
use household_back.Paging.{All-map}
use household_back.Keys.{
  All-every, All-update_cases, All-both, Distinct-append, Distinct-update, same_row, count-append,
  count-update_le, count-none, any-append_left, any-update,
}
use household_back.Household.Repository.{
  find_household, is_membership, find_membership, find_member,
}
use household_back.Household.Service.{
  deleted_household, dropped_member, owner_only, require_owner, put_household,
  cascade_soft_delete_children,
}
use household_back.Household.Rules.{IsManaged, household_key, member_key, OwnerIn}

split_and : (a b : Bool) → (a && b) ≡ true → (a ≡ true) × (b ≡ true)
split_and a b h = ground arith

pub membership_parts :
    (household_id user_id : ℕ) (m : HouseholdMember)
    → is_membership household_id user_id m ≡ true
    → (m.household_id ≡ household_id) × (m.user_id ≡ user_id) × (is_active m.data_stat_cd ≡ true)
membership_parts household_id user_id m h =
    let (a, b) = split_and (m.household_id == household_id) _ h in
    let (c, d) = split_and (m.user_id == user_id) _ b in
    ((==_iff m.household_id household_id).0 a, (==_iff m.user_id user_id).0 c, d)

pub dead_membership :
    (household_id user_id : ℕ) (m : HouseholdMember)
    → is_active m.data_stat_cd ≡ false
    → is_membership household_id user_id m ≡ false
dead_membership household_id user_id m h =
    by_tests (m.household_id == household_id) (m.user_id == user_id)
  where
    by_tests : (a b : Bool) → (a && (b && is_active m.data_stat_cd)) ≡ false
    by_tests a b = ground (arith, h)

-- The owner check succeeds on the active household of that owner.
pub require_owner-eq-ok :
    (household_id user_id : ℕ) (db : Db) (h : Household)
    → require_owner household_id user_id db ≡ ok h
    → (find_household household_id db ≡ some h)
      × (h.id ≡ household_id)
      × (is_active h.data_stat_cd ≡ true)
      × (h.owner_id ≡ user_id)
unfolding require_owner find_household
require_owner-eq-ok household_id user_id db h e =
    by_row
      (find (λ (x : Household). x.id == household_id && is_active x.data_stat_cd) db.households)
      refl e
  where
    by_row :
        (o : Option Household)
        → find (λ (x : Household). x.id == household_id && is_active x.data_stat_cd) db.households
          ≡ o
        → owner_only user_id o ≡ ok h
        → (o ≡ some h)
          × (h.id ≡ household_id)
          × (is_active h.data_stat_cd ≡ true)
          × (h.owner_id ≡ user_id)
    by_row none f k = cc
    by_row (some x) f k =
        let (owns, same) = owner_cases (x.owner_id == user_id) x k in
        let (id_hit, live) = split_and (x.id == household_id) _ (find-passes _ db.households x f) in
        (
          ap some same,
          ap (λ (y : Household). y.id) (sym same) ∙ (==_iff x.id household_id).0 id_hit,
          ap (λ (y : Household). is_active y.data_stat_cd) (sym same) ∙ live,
          ap (λ (y : Household). y.owner_id) (sym same) ∙ (==_iff x.owner_id user_id).0 owns,
        )
      where
        owner_cases :
            (b : Bool) (y : Household)
            → (if not b then err household_not_owner else ok y) ≡ ok h
            → (b ≡ true) × (y ≡ h)
        owner_cases true y q = (refl, ok-injective q)
        owner_cases false y q = cc

-- A household row replaced by one of the same id and owner, or by a deleted one.
pub put_household-IsManaged :
    (household_id : ℕ) (db : Db) (h h' : Household)
    → find_household household_id db ≡ some h
    → h'.id ≡ h.id
    → h'.owner_id ≡ h.owner_id
    → is_active h.data_stat_cd ≡ true
    → IsManaged db
    → IsManaged (put_household h' db)
unfolding find_household
put_household-IsManaged household_id db h h' found same_id same_owner live v = record {
  household_keys =
      Distinct-update household_key (λ (x : Household). x.id == h'.id) (λ _. h') db.households
        (λ x e. sym ((==_iff x.id h'.id).0 e)) v.household_keys;
  member_keys = v.member_keys;
  owners =
      All-update_where (OwnerIn db.household_members) (λ (x : Household). x.id == h'.id) (λ _. h')
        db.households (λ _ _. new_owner) v.owners;
  single = v.single;
}
  where
    new_owner : OwnerIn db.household_members h'
    new_owner _ =
        subst (λ k. any (is_membership k h'.owner_id) db.household_members ≡ true) (sym same_id)
          (subst (λ k. any (is_membership h.id k) db.household_members ≡ true) (sym same_owner)
            (find-All (OwnerIn db.household_members) _ db.households h v.owners found live))

-- A member row added, of a user who is no active member yet.
pub added_member-IsManaged :
    (db : Db) (m : HouseholdMember)
    → All (λ (x : HouseholdMember). (x.id == m.id) ≡ false) db.household_members
    → find_membership m.household_id m.user_id db ≡ none
    → IsManaged db
    → IsManaged (record db { household_members = db.household_members ++ m ∷ [] })
unfolding find_membership
added_member-IsManaged db m new_key nobody v = record {
  household_keys = v.household_keys;
  member_keys = Distinct-append member_key db.household_members m v.member_keys new_key;
  owners =
      All-map (OwnerIn db.household_members) (OwnerIn (db.household_members ++ m ∷ []))
        (λ h own live.
          any-append_left (is_membership h.id h.owner_id) db.household_members (m ∷ []) (own live))
        db.households v.owners;
  single = single_after;
}
  where
    none_before : count (is_membership m.household_id m.user_id) db.household_members ≡ 0
    none_before = count-none (is_membership m.household_id m.user_id) db.household_members nobody

    single_after :
        (household_id user_id : ℕ)
        → count (is_membership household_id user_id) (db.household_members ++ m ∷ []) ≤ 1
    single_after household_id user_id = elim (Bool-cases (is_membership household_id user_id m)) [
      | inl hit ↦
          let (a, b, _) = membership_parts household_id user_id m hit in
          rw (count-append (is_membership household_id user_id) db.household_members m, hit)
            (omega (
              arith,
              ap (λ k. count (is_membership k user_id) db.household_members) (sym a)
                  ∙ ap (λ k. count (is_membership m.household_id k) db.household_members) (sym b)
                  ∙ none_before,
            ))
      | inr miss ↦
          rw (count-append (is_membership household_id user_id) db.household_members m, miss)
            (omega (arith, v.single household_id user_id))
    ]

clash : {b : Bool} → b ≡ true → b ≡ false → ⊥
clash p q = cc

-- The deletion of a household, with its members.
pub deleted_household-IsManaged :
    (household_id : ℕ) (db : Db) (h : Household)
    → h.id ≡ household_id
    → IsManaged db
    → IsManaged (deleted_household household_id h db)
unfolding deleted_household cascade_soft_delete_children
deleted_household-IsManaged household_id db h same_id v = record {
  household_keys =
      Distinct-update household_key (λ (x : Household). x.id == h.id)
        (λ _. record h { data_stat_cd = deleted }) db.households
        (λ x e. sym ((==_iff x.id h.id).0 e)) v.household_keys;
  member_keys =
      Distinct-update member_key here dropped db.household_members (λ x e. refl) v.member_keys;
  owners =
      All-update_cases (OwnerIn (update_where here dropped db.household_members))
        (λ (x : Household). x.id == h.id) (λ _. record h { data_stat_cd = deleted }) db.households
        (All-map (OwnerIn db.household_members) _
          (λ x own. (λ _ live. cc, λ apart live. kept x apart (own live))) db.households v.owners);
  single = λ k user_id. omega (
    arith,
    count-update_le (is_membership k user_id) here dropped db.household_members
        (λ m. dead_membership k user_id (dropped m) refl),
    v.single k user_id,
  );
}
  where
    here : HouseholdMember → Bool
    here m = m.household_id == household_id && is_active m.data_stat_cd

    dropped : HouseholdMember → HouseholdMember
    dropped m = record m { data_stat_cd = deleted }

    elsewhere : (a b c : ℕ) (live : Bool) → a ≡ b → (b == c) ≡ false → (a == c && live) ≡ false
    elsewhere a b c live same apart = rw (same, apart) refl

    kept :
        (x : Household)
        → (x.id == h.id) ≡ false
        → any (is_membership x.id x.owner_id) db.household_members ≡ true
        → any (is_membership x.id x.owner_id) (update_where here dropped db.household_members)
          ≡ true
    kept x apart = any-update (is_membership x.id x.owner_id) here dropped db.household_members (
        All-every _ db.household_members (λ (m : HouseholdMember) e.
          elsewhere m.household_id x.id household_id (is_active m.data_stat_cd)
            (membership_parts x.id x.owner_id m e).0
            (subst (λ k. (x.id == k) ≡ false) same_id apart)))

-- A member row deleted, not that of the owner.
pub dropped_member-IsManaged :
    (household_id member_id : ℕ) (db : Db) (h : Household) (m : HouseholdMember)
    → find_household household_id db ≡ some h
    → h.id ≡ household_id
    → find_member member_id db ≡ some m
    → m.household_id ≡ household_id
    → (m.user_id == h.owner_id) ≡ false
    → IsManaged db
    → IsManaged (dropped_member m db)
unfolding find_household find_member dropped_member
dropped_member-IsManaged household_id member_id db h m found same_id found_member here not_owner v =
    record {
      household_keys = v.household_keys;
      member_keys =
          Distinct-update member_key hit (λ _. gone) db.household_members
            (λ x e. sym ((==_iff x.id m.id).0 e)) v.member_keys;
      owners =
          All-map
            (λ (x : Household). OwnerIn db.household_members x × ((x.id == h.id) ≡ true → x ≡ h))
            (OwnerIn (update_where hit (λ _. gone) db.household_members))
            (λ x (own, alone) live. kept x alone (own live)) db.households
            (All-both (OwnerIn db.household_members) _ db.households v.owners
              (same_row household_key _ db.households h v.household_keys found));
      single = λ k user_id. omega (
        arith,
        count-update_le (is_membership k user_id) hit (λ _. gone) db.household_members
            (λ _. dead_membership k user_id gone refl),
        v.single k user_id,
      );
    }
  where
    hit : HouseholdMember → Bool
    hit x = x.id == m.id

    gone : HouseholdMember
    gone = record m { data_stat_cd = deleted }

    spared :
        (x : Household) (r : HouseholdMember)
        → ((x.id == h.id) ≡ true → x ≡ h)
        → ((r.id == m.id) ≡ true → r ≡ m)
        → is_membership x.id x.owner_id r ≡ true
        → hit r ≡ false
    spared x r alone unique e = elim (Bool-cases (r.id == m.id)) [
      | inl same ↦
          let (a, b, _) = membership_parts x.id x.owner_id r e in
          let r_is_m = unique same in
          let x_is_h = alone (
            (==_iff x.id h.id).1
              (sym a ∙ ap (λ (q : HouseholdMember). q.household_id) r_is_m ∙ here ∙ sym same_id)) in
          absurd (
            clash
              ((==_iff m.user_id h.owner_id).1 (
                ap (λ (q : HouseholdMember). q.user_id) (sym r_is_m)
                ∙ b
                ∙ ap (λ (q : Household). q.owner_id) x_is_h))
              not_owner)
      | inr apart ↦ apart
    ]

    kept :
        (x : Household)
        → ((x.id == h.id) ≡ true → x ≡ h)
        → any (is_membership x.id x.owner_id) db.household_members ≡ true
        → any (is_membership x.id x.owner_id) (update_where hit (λ _. gone) db.household_members)
          ≡ true
    kept x alone =
        any-update (is_membership x.id x.owner_id) hit (λ _. gone) db.household_members
          (All-map (λ (r : HouseholdMember). (r.id == m.id) ≡ true → r ≡ m) _
            (λ r unique e. spared x r alone unique e) db.household_members
            (same_row member_key _ db.household_members m v.member_keys found_member))
